-- ===== src/Examples/Grammar.antt =====
-- The theorems on the grammar (h11/_abnf.py) at concrete lines.
use h.Prelude.{[], ◌∷◌}
use h.Prelude.Bytes.{codes}
use h.Abnf.{
  when, match_request_line, match_status_line, match_header_field, match_field_value,
  match_chunk_header,
}
use h.Grammar.Regex.{Groups, Matches}
use h.Grammar.Defs.{request_line, status_line, header_field, field_value, chunk_header}
use h.Grammar.Classes.{Decides}
use h.Grammar.RequestLine.{request_groups, match_request_line-Decides}
use h.Grammar.StatusParts.{status_groups}
use h.Grammar.StatusLine.{match_status_line-Decides}
use h.Grammar.HeaderField.{field_groups, match_header_field-Decides}
use h.Grammar.FieldValue.{match_field_value-Decides}
use h.Grammar.ChunkHeader.{match_chunk_header-Decides}

match_request_line-Decides_example :
    Decides
      (λ m. Matches request_line (codes "GET /a HTTP/1.1") (request_groups m))
      (match_request_line (codes "GET /a HTTP/1.1"))
match_request_line-Decides_example = match_request_line-Decides (codes "GET /a HTTP/1.1")

match_status_line-Decides_example :
    Decides
      (λ m. Matches status_line (codes "HTTP/1.1 404 Not found") (status_groups m))
      (match_status_line (codes "HTTP/1.1 404 Not found"))
match_status_line-Decides_example = match_status_line-Decides (codes "HTTP/1.1 404 Not found")

match_header_field-Decides_example :
    Decides
      (λ m. Matches header_field (codes "Host: a b ") (field_groups m))
      (match_header_field (codes "Host: a b "))
match_header_field-Decides_example = match_header_field-Decides (codes "Host: a b ")

match_field_value-Decides_example :
    Decides (λ _. Matches field_value (codes "a  b") []) (when (match_field_value (codes "a  b")))
match_field_value-Decides_example = match_field_value-Decides (codes "a  b")

match_chunk_header-Decides_example :
    Decides
      (λ size.
        (g : Groups) × Matches chunk_header (codes "1f;a=b\r\n") ((codes "chunk_size", size) ∷ g))
      (match_chunk_header (codes "1f;a=b\r\n"))
match_chunk_header-Decides_example = match_chunk_header-Decides (codes "1f;a=b\r\n")
