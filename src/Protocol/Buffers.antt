-- ===== src/Protocol/Buffers.antt =====
-- The calls of `ReceiveBuffer` (h11/_receivebuffer.py) that the readers make.
use h.Prelude.{ℕ, zero, suc, ◌∷◌, ap, subst, sym, Option, none, some, []}
use h.Prelude.Bytes.{Bytes}
use h.Prelude.Exec.{Exec}
use h.Buffer.Defs.{
  ReceiveBuffer, maybe_extract_at_most, maybe_extract_next_line, maybe_extract_lines,
}
use h.Buffer.Plain.{cut, plain_at_most, plain_line_of, plain_next_line}
use h.Buffer.Search.{match_crlf}
use h.Buffer.Cache.{
  IsCached, at_most-view, at_most-IsCached, next_line-view, next_line-IsCached, lines-IsCached,
}
use h.Buffer.Lines.{lines_never_raise}
use h.Readers.Defs.{Reading, on_buffer}
use h.Protocol.Defs.{Safe, Safe-ok, Ends}

abbrev pub Anything : {A : Type 0} → A → Type 0
Anything a = Unit {0}

Safe-plain_at_most : (n : ℕ) (d : Bytes) → Safe (plain_at_most n d).0
unfolding plain_at_most
Safe-plain_at_most n [] = Safe-ok none
Safe-plain_at_most zero (x ∷ d) = Safe-ok none
Safe-plain_at_most (suc n) (x ∷ d) = Safe-ok _

Safe-plain_line_of : (d : Bytes) (o : Option (Bytes × Bytes)) → Safe (plain_line_of d o).0
Safe-plain_line_of d none = Safe-ok none
Safe-plain_line_of d (some (line, rest)) = Safe-ok (some line)

module _ (b : ReceiveBuffer) (c : IsCached b) where
  pub at_most-Ends : (n : ℕ) → Ends IsCached Anything (maybe_extract_at_most n b)
  at_most-Ends n = record {
    gives = subst Safe (sym (ap (λ p. p.0) (at_most-view n b))) (Safe-plain_at_most n b.bytes);
    keeps = at_most-IsCached n b c;
  }

  pub next_line-Ends : Ends IsCached Anything (maybe_extract_next_line b)
  next_line-Ends = record {
    gives =
        subst Safe (sym (ap (λ p. p.0) (next_line-view b c)))
          (unfold plain_next_line in Safe-plain_line_of b.bytes (cut match_crlf b.bytes));
    keeps = next_line-IsCached b c;
  }

  pub lines-Ends : Ends IsCached Anything (maybe_extract_lines b)
  lines-Ends =
      let (o, e) = lines_never_raise b c in
      record { gives = subst Safe (sym e) (Safe-ok o); keeps = lines-IsCached b c }

-- The buffer of a reader.
abbrev pub Cached : {R : Type 0} → Reading R → Type 0
Cached s = IsCached s.1

pub on_buffer-Ends :
    {R A : Type 0} {P : A → Type 0} (m : Exec ReceiveBuffer A) (r : R) (b : ReceiveBuffer)
    → Ends IsCached P (m b)
    → Ends Cached P (on_buffer m (r, b))
on_buffer-Ends m r b h = record { gives = h.gives; keeps = h.keeps }
