-- ===== src/Grammar/Defs.antt =====
-- The regular expressions of h11/_abnf.py.
use h.Prelude.{not, ◌==◌}
use h.Prelude.Bytes.{codes, is_digit}
use h.Abnf.{is_blank, is_vchar, is_vchar_or_obs_text, is_tchar, is_hexdig}
use h.Grammar.Regex.{Regex, one, seq, alt, star, group, plus, opt, text, repeat}

-- `OWS`
abbrev pub ows : Regex
ows = star (one is_blank)

abbrev pub token : Regex
token = plus (one is_tchar)

abbrev pub field_vchar : Regex
field_vchar = one is_vchar_or_obs_text

abbrev pub field_content : Regex
field_content = seq (plus field_vchar) (star (seq (plus (one is_blank)) (plus field_vchar)))

abbrev pub field_value : Regex
field_value = opt field_content

abbrev pub header_field : Regex
header_field =
    seq (group (codes "field_name") token)
      (seq (text (codes ":")) (seq ows (seq (group (codes "field_value") field_value) ows)))

abbrev pub request_target : Regex
request_target = plus (one is_vchar)

abbrev pub version_number : Regex
version_number = seq (one is_digit) (seq (text (codes ".")) (one is_digit))

abbrev pub http_version : Regex
http_version = seq (text (codes "HTTP/")) (group (codes "http_version") version_number)

abbrev pub request_line : Regex
request_line = seq (group (codes "method") token) (
    seq (text (codes " "))
      (seq (group (codes "target") request_target) (seq (text (codes " ")) http_version)))

abbrev pub status_code : Regex
status_code = repeat 3 0 (one is_digit)

abbrev pub reason_phrase : Regex
reason_phrase = star (alt (one is_blank) (one is_vchar_or_obs_text))

abbrev pub status_line : Regex
status_line = seq http_version (
    seq (text (codes " ")) (
      seq (group (codes "status_code") status_code)
        (opt (seq (text (codes " ")) (group (codes "reason") reason_phrase)))))

abbrev pub chunk_size : Regex
chunk_size = repeat 1 19 (one is_hexdig)

-- `.` is any byte but a line feed.
abbrev pub chunk_ext : Regex
chunk_ext = seq (text (codes ";")) (star (one (λ c. not (c == 10))))

abbrev pub chunk_header : Regex
chunk_header =
    seq (group (codes "chunk_size") chunk_size)
      (seq (opt (group (codes "chunk_ext") chunk_ext)) (seq ows (text (codes "\r\n"))))
