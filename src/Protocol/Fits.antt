-- ===== src/Protocol/Fits.antt =====
-- When the reader and the writer of a `Connection` (h11/_connection.py) fit the states.
use h.Prelude.{◌≡◌, ◌≢◌, refl, Option, none, some, arith}
use h.State.Table.{
  Role, client, server, State, idle, send_response, send_body, error, might_switch_protocol,
  switched_protocol, get_state,
}
use h.State.Defs.{ConnectionState}
use h.State.Invariant.{IsSound}
use h.Readers.Defs.{Framing, Reader, readers}
use h.Writers.Defs.{
  Writer, request_writer, any_response_writer, chunked_writer, http10_writer, content_length_writer,
  body_writer, writers,
}

-- The states in which the peer is read from.
abbrev pub IsRead : State → Type 0
IsRead s = (s ≢ error) × (s ≢ might_switch_protocol) × (s ≢ switched_protocol)

abbrev pub ReaderFits : State → Option Reader → Type 0
ReaderFits s r = IsRead s → r ≢ none

abbrev pub IsBodyWriter : Writer → Type 0
IsBodyWriter chunked_writer = Unit {0}
IsBodyWriter http10_writer = Unit {0}
IsBodyWriter (content_length_writer n) = Unit {0}
IsBodyWriter _ = ⊥

-- The writer of a role, in the states in which something is written.
abbrev pub WriterFits : Role → State → Option Writer → Type 0
WriterFits client idle w = w ≡ some request_writer
WriterFits server idle w = w ≡ some any_response_writer
WriterFits server send_response w = w ≡ some any_response_writer
WriterFits _ send_body w = (v : Writer) × (w ≡ some v) × IsBodyWriter v
WriterFits _ _ w = Unit {0}

-- The client never answers.
abbrev pub IsRoleState : Role → State → Type 0
IsRoleState client s = s ≢ send_response
IsRoleState server s = s ≢ might_switch_protocol

pub IsSound-IsRoleState :
    (r : Role) (m : ConnectionState) → IsSound m → IsRoleState r (get_state m.states r)
IsSound-IsRoleState client m i = i.client_states
IsSound-IsRoleState server m i = i.server_states

pub readers-Fits :
    (r : Role) (s : State) → IsRoleState r s → s ≢ send_body → ReaderFits s (readers r s)
unfolding readers
readers-Fits client idle h b i e = cc
readers-Fits client _ h b i e = ground arith
readers-Fits server idle h b i e = cc
readers-Fits server _ h b i e = ground arith

pub writers-Fits :
    (r : Role) (s : State) → IsRoleState r s → s ≢ send_body → WriterFits r s (writers r s)
unfolding writers
writers-Fits client idle h b = refl
writers-Fits client send_body h b = absurd (b refl)
writers-Fits client _ h b = tt
writers-Fits server idle h b = refl
writers-Fits server send_response h b = refl
writers-Fits server send_body h b = absurd (b refl)
writers-Fits server _ h b = tt

pub body_writer-Fits : (r : Role) (f : Framing) → WriterFits r send_body (some (body_writer f))
unfolding body_writer
body_writer-Fits client (Framing.content_length n) = (content_length_writer _, refl, tt)
body_writer-Fits client Framing.chunked = (chunked_writer, refl, tt)
body_writer-Fits client Framing.http10 = (http10_writer, refl, tt)
body_writer-Fits server (Framing.content_length n) = (content_length_writer _, refl, tt)
body_writer-Fits server Framing.chunked = (chunked_writer, refl, tt)
body_writer-Fits server Framing.http10 = (http10_writer, refl, tt)
