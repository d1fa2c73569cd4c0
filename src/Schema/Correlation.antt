-- ===== src/Schema/Correlation.antt =====
-- weather-schema/src/correlation.rs: the identifiers of requests in one process. The nonce, a random
-- UUID, is given as its text.
pub mod Unique
use weather_app.Common.{
  Bool, true, false, List, [], ◌∷◌, ◌++◌, Option, none, some, ℕ, zero, suc, ◌+◌, ◌/◌, ◌%◌,
  if◌then◌else◌, leb, u64_max,
}
use weather_app.Common.Text.{Text, text}
use weather_app.Schema.Uuid.{hex_digit}

pub record CorrelationIdGenerator : Type 0 where
  pub nonce : Text
  pub next_sequence : ℕ

-- Hexadecimal digits of a given number, the last one last.
unfoldable pub hex_digits : ℕ → ℕ → Text
hex_digits zero n = []
hex_digits (suc width) n = hex_digits width (n / 16) ++ (hex_digit (n % 16) ∷ [])

-- `{scope}-{nonce}-{sequence:016x}`; sixteen digits hold every number of 64 bits.
unfoldable pub id_text : Text → Text → ℕ → Text
id_text scope nonce sequence =
    (scope ++ (text "-" ++ (nonce ++ text "-"))) ++ hex_digits 16 sequence

-- `none` stands for the panic when the sequence is exhausted.
unfoldable pub next : Text → CorrelationIdGenerator → Option (CorrelationIdGenerator × Text)
next scope g =
    if leb (g.next_sequence + 1) u64_max
    then some
        (record g { next_sequence = g.next_sequence + 1 }, id_text scope g.nonce g.next_sequence)
    else none

-- The identifiers of calls one after another, as far as the sequence goes.
unfoldable pub issue : List Text → CorrelationIdGenerator → List Text
issue [] g = []
issue (scope ∷ scopes) g = elim (next scope g) [ none ↦ [] | some (g', id) ↦ id ∷ issue scopes g' ]
