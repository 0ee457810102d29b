-- ===== src/Mcp/Frame.antt =====
-- `_read_frame` and `_write_frame` of magent2/tools/mcp/client.py, over lists of bytes.
use magent.Prelude.{
  ℕ, Option, none, some, List, [], ◌∷◌, ◌++◌, length, take, drop, ◌==◌, if◌then◌else◌, Text, codes,
  starts_with, strip, after_sep, ℤ, pos, negsuc, py_int,
}
use magent.Prelude.Exec.{
  Exec, Exception, runtime_error, value_error, other_error, Result, return, raise,
}
use magent.Json.{Value, Fields, dumps, decimal}

-- `bytes.decode`, none for bytes that are no UTF-8, `str.lower`, and `json.loads`, none for a text
-- that is no JSON. A `FramingError` is a RuntimeError.
pub record Codec : Type 0 where
  pub decode : List ℕ → Option Text
  pub lower : Text → Text
  pub json_loads : Text → Option Value

abbrev pub framing_error : Text → Exception
framing_error message = record { kind = runtime_error; message = message }

abbrev pub end_of_file : Exception
end_of_file = record { kind = other_error; message = codes "EOF while reading header line" }

-- `stdout.readline()`: what stands up to the first newline, with it, and the rest.
unfoldable pub read_line : List ℕ → List ℕ × List ℕ
read_line [] = ([], [])
read_line (c ∷ s) =
    let (line, rest) = read_line s in if c == 10 then (c ∷ [], s) else (c ∷ line, rest)

-- `text.split(":", 1)[1]`
abbrev pub after_colon : Text → Text
after_colon text = after_sep b':' text

abbrev pub not_utf8 : Exception
not_utf8 = record { kind = value_error; message = codes "invalid start byte" }

abbrev pub parsed : Option Value → Result Value
parsed none = raise (framing_error (codes "Invalid JSON body"))
parsed (some value) = return value

abbrev pub parse_body : Codec → Option Text → Result Value
parse_body codec none = raise not_utf8
parse_body codec (some text) = parsed (codec.json_loads text)

-- A negative length reads to the end, and no body has a negative length.
abbrev pub read_body : Codec → ℤ → List ℕ → Result Value × List ℕ
read_body codec (negsuc n) input = (raise (framing_error (codes "Truncated body")), [])
read_body codec (pos n) input =
    if length (take n input) == n
    then (parse_body codec (codec.decode (take n input)), drop n input)
    else (raise (framing_error (codes "Truncated body")), drop n input)

-- The line between the headers and the body, whatever it holds.
abbrev pub read_blank : Codec → ℤ → List ℕ → Result Value × List ℕ
read_blank codec n [] = (raise (framing_error (codes "Missing CRLF after headers")), [])
read_blank codec n (c ∷ input) = read_body codec n (read_line (c ∷ input)).1

abbrev pub read_sized : Codec → Option ℤ → List ℕ → Result Value × List ℕ
read_sized codec none input = (raise (framing_error (codes "Invalid Content-Length header")), input)
read_sized codec (some n) input = read_blank codec n input

abbrev pub read_header : Codec → Option Text → List ℕ → Result Value × List ℕ
read_header codec none input = (raise (framing_error (codes "Failed to decode header line")), input)
read_header codec (some line) input =
    if starts_with (codes "content-length:") (codec.lower (strip line))
    then read_sized codec (py_int (strip (after_colon (strip line)))) input
    else (raise (framing_error (codes "Missing Content-Length header")), input)

abbrev pub read_after_line : Codec → List ℕ × List ℕ → Result Value × List ℕ
read_after_line codec ([], rest) = (raise end_of_file, rest)
read_after_line codec (c ∷ line, rest) = read_header codec (codec.decode (c ∷ line)) rest

unfoldable pub read_frame : Codec → Exec (List ℕ) Value
unfolding read_line strip py_int starts_with
read_frame codec input = read_after_line codec (read_line input)

-- The bytes that are written: `json.dumps` writes ASCII, whose bytes are its code points.
unfoldable pub write_frame : Fields → List ℕ
unfolding dumps decimal
write_frame payload =
    let body = dumps payload in
    codes "Content-Length: " ++ (decimal (length body) ++ (13 ∷ 10 ∷ 13 ∷ 10 ∷ body))
