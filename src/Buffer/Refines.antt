-- ===== src/Buffer/Refines.antt =====
-- Any calls of a receive buffer (h11/_receivebuffer.py), against the buffer with no cache.
use h.Prelude.{ℕ, ◌≡◌, refl, Option, List, [], ◌∷◌, ◌++◌, ap}
use h.Prelude.Bytes.{Bytes}
use h.Prelude.Exec.{Result, ok, err, Exec, pure, modify, continue, ◌>>=◌, ◌>>◌}
use h.Buffer.Defs.{
  ReceiveBuffer, new, append, maybe_extract_at_most, maybe_extract_next_line, maybe_extract_lines,
}
use h.Buffer.Plain.{plain_at_most, plain_next_line, plain_lines, view}
use h.Buffer.Cache.{
  IsCached, fresh-IsCached, append-IsCached, at_most-view, at_most-IsCached, next_line-view,
  next_line-IsCached, lines-view, lines-IsCached,
}

-- The calls on a buffer, and what they answer.
pub data Call : Type 0 where
  receive : Bytes → Call
  read_at_most : ℕ → Call
  read_line read_lines : Call

pub data Answer : Type 0 where
  no_answer : Answer
  chunk : Option Bytes → Answer
  lines : Option (List Bytes) → Answer

abbrev pub perform : Call → Exec ReceiveBuffer Answer
perform (receive more) = do modify (append more); pure no_answer
perform (read_at_most n) = do o ← maybe_extract_at_most n; pure (chunk o)
perform read_line = do o ← maybe_extract_next_line; pure (chunk o)
perform read_lines = do o ← maybe_extract_lines; pure (lines o)

abbrev pub perform_plain : Call → Exec Bytes Answer
perform_plain (receive more) = do modify (λ d. d ++ more); pure no_answer
perform_plain (read_at_most n) = do o ← plain_at_most n; pure (chunk o)
perform_plain read_line = do o ← plain_next_line; pure (chunk o)
perform_plain read_lines = do o ← plain_lines; pure (lines o)

-- The answers to a list of calls, errors among them, and what is left.
module _ {S : Type 0} (step : Call → Exec S Answer) where
  pub run_calls : List Call → S → List (Result Answer) × S
  run_calls [] s = ([], s)
  run_calls (c ∷ cs) s = let later = run_calls cs (step c s).1 in ((step c s).0 ∷ later.0, later.1)

then-view :
    {A B : Type 0} (f : A → B) (x : Result A × ReceiveBuffer) {y : Result A × Bytes}
    → view x ≡ y
    → view (continue x.0 (λ a. pure (f a)) x.1) ≡ continue y.0 (λ a. pure (f a)) y.1
then-view f (ok a, b) e = rw (← e)
then-view f (err a, b) e = rw (← e)

then-IsCached :
    {A B : Type 0} (f : A → B) (x : Result A × ReceiveBuffer)
    → IsCached x.1
    → IsCached (continue x.0 (λ a. pure (f a)) x.1).1
then-IsCached f (ok a, b) c = c
then-IsCached f (err a, b) c = c

perform-view :
    (c : Call) (b : ReceiveBuffer) → IsCached b → view (perform c b) ≡ perform_plain c b.bytes
perform-view (receive more) b h = unfold append in refl
perform-view (read_at_most n) b h = then-view chunk (maybe_extract_at_most n b) (at_most-view n b)
perform-view read_line b h = then-view chunk (maybe_extract_next_line b) (next_line-view b h)
perform-view read_lines b h = then-view lines (maybe_extract_lines b) (lines-view b h)

perform-IsCached : (c : Call) (b : ReceiveBuffer) → IsCached b → IsCached (perform c b).1
perform-IsCached (receive more) b h = append-IsCached more b h
perform-IsCached (read_at_most n) b h =
    then-IsCached chunk (maybe_extract_at_most n b) (at_most-IsCached n b h)
perform-IsCached read_line b h =
    then-IsCached chunk (maybe_extract_next_line b) (next_line-IsCached b h)
perform-IsCached read_lines b h = then-IsCached lines (maybe_extract_lines b) (lines-IsCached b h)

-- Every answer, and the bytes left, are those of the plain search, whatever the calls.
pub run_calls-plain :
    (cs : List Call) (b : ReceiveBuffer)
    → IsCached b
    → ((run_calls perform cs b).0 ≡ (run_calls perform_plain cs b.bytes).0)
      × ((run_calls perform cs b).1.bytes ≡ (run_calls perform_plain cs b.bytes).1)
unfolding run_calls
run_calls-plain [] b h = (refl, refl)
run_calls-plain (c ∷ cs) b h =
    let v = perform-view c b h in
    let ih = run_calls-plain cs (perform c b).1 (perform-IsCached c b h) in
    rw (← v) (ap (λ t. (perform c b).0 ∷ t) ih.0, ih.1)

-- Under any calls a new buffer gives the answers, and keeps the bytes, of a buffer that searches
-- all of its bytes at each call.
pub cache_is_transparent :
    (cs : List Call)
    → ((run_calls perform cs new).0 ≡ (run_calls perform_plain cs []).0)
      × ((run_calls perform cs new).1.bytes ≡ (run_calls perform_plain cs []).1)
cache_is_transparent cs = run_calls-plain cs new (fresh-IsCached [])
