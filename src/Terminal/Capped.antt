-- ===== src/Terminal/Capped.antt =====
-- The size of the output that `run` reports.
use magent.Prelude.{
  ℕ, ◌≤◌, ◌<◌, ◌++◌, ◌≡◌, refl, ◌⊎◌, inl, inr, Bool, true, false, Bool-cases, [], ◌∷◌, arith, leb,
  Text,
}
use magent.Gateway.Sse.{is_surrogate, utf8_length, take_bytes}
use magent.Gateway.Fits.{take_bytes_lem}
use magent.Terminal.Policy.{
  Output, System, TerminalTool, encodable, combine_streams, truncate_to_bytes, report_of,
}

encodable_le : (s : Text) → utf8_length (encodable s) ≤ utf8_length s
unfolding utf8_length
encodable_le [] = omega arith
encodable_le (c ∷ s) =
    let rest = encodable_le s in
    elim (Bool-cases (is_surrogate c)) [
      | inl dropped ↦ ground (arith, dropped, rest)
      | inr kept ↦ ground (arith, kept, rest)
    ]

-- What a cut to `n` bytes leaves of a text: all of it, or a beginning of what can be encoded.
abbrev pub IsCut : (whole : Text) → (n : ℕ) → (text : Text) → (truncated : Bool) → Type 0
IsCut whole n text truncated =
    (utf8_length (encodable text) ≤ n)
    × (((truncated ≡ false) × (text ≡ whole))
        ⊎ ((truncated ≡ true)
            × (n < utf8_length (encodable whole))
            × (rest : Text) × (encodable whole ≡ text ++ rest)))

truncate_lem : (s : Text) (n : ℕ) → IsCut s n (truncate_to_bytes s n).0 (truncate_to_bytes s n).1
unfolding truncate_to_bytes
truncate_lem s n =
    let (short, (rest, split)) = take_bytes_lem n (encodable s) in
    let below = encodable_le (take_bytes n (encodable s)) in
    elim (Bool-cases (leb (utf8_length (encodable s)) n)) [
      | inl fits ↦ rw fits (ground (arith, fits), inl (refl, refl))
      | inr long ↦ rw long (omega arith, inr (refl, ground (arith, long), rest, split))
    ]

-- The output in a report has at most as many bytes in UTF-8 as the cap, and is either the whole
-- redacted output, not marked as truncated, or marked as truncated, where the redacted output has
-- more bytes than the cap and its encodable characters begin with it.
pub report_fits :
    {W : Type 0} (system : System W) (tool : TerminalTool) (out : Output)
    → IsCut
        (system.redact_output (combine_streams out.stdout out.stderr))
        tool.output_cap_bytes
        (report_of system tool out).stdout
        (report_of system tool out).truncated
unfolding report_of
report_fits system tool out =
    truncate_lem (system.redact_output (combine_streams out.stdout out.stderr))
      tool.output_cap_bytes
