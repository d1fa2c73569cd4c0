-- ===== src/Schema/Uuid.antt =====
-- weather-schema/src/uuid.rs: the public identifier of a station. SHA-256 is the parameter `digest`,
-- from bytes to bytes.
use weather_app.Common.{
  ◌||◌, List, [], ◌∷◌, ◌++◌, ℕ, zero, suc, ◌+◌, ◌/◌, ◌%◌, ◌≤◌, ◌<◌, ◌≡◌, refl, sym, ap, ◌∙◌, arith,
  length, take, get_elem?, All, some, if◌then◌else◌, eqb, ltb,
}
use weather_app.Common.Text.{Text, text}

-- `str::as_bytes`: the UTF-8 encoding of a code point.
unfoldable pub utf8_char : ℕ → List ℕ
utf8_char c =
    if ltb c 0x80
    then c ∷ []
    else if ltb c 0x800
    then (0xc0 + c / 64) ∷ (0x80 + c % 64) ∷ []
    else if ltb c 0x10000
    then (0xe0 + c / 4096) ∷ (0x80 + (c / 64) % 64) ∷ (0x80 + c % 64) ∷ []
    else (0xf0 + c / 262144)
      ∷ (0x80 + (c / 4096) % 64)
      ∷ (0x80 + (c / 64) % 64)
      ∷ (0x80 + c % 64)
      ∷ []

unfoldable pub as_bytes : Text → List ℕ
as_bytes [] = []
as_bytes (c ∷ s) = utf8_char c ++ as_bytes s

-- A lower-case hexadecimal digit.
unfoldable pub hex_digit : ℕ → ℕ
hex_digit n = if ltb n 10 then b'0' + n else 87 + n

-- `{byte:02x}`.
unfoldable pub hex_byte : ℕ → Text
hex_byte byte = hex_digit (byte / 16) ∷ hex_digit (byte % 16) ∷ []

unfoldable pub hyphen_before : ℕ → Text
hyphen_before i = if eqb i 4 || (eqb i 6 || (eqb i 8 || eqb i 10)) then b'-' ∷ [] else []

-- The loop of `format_uuid` from byte `i` on.
unfoldable pub format_from : ℕ → List ℕ → Text
format_from i [] = []
format_from i (byte ∷ bytes) = hyphen_before i ++ (hex_byte byte ++ format_from (suc i) bytes)

unfoldable pub format_uuid : List ℕ → Text
format_uuid bytes = format_from 0 bytes

-- The version and variant bits of bytes 6 and 8: `& 0x0F | 0x50` and `& 0x3F | 0x80`.
unfoldable pub mark_byte : ℕ → ℕ → ℕ
mark_byte i byte = if eqb i 6 then byte % 16 + 0x50 else if eqb i 8 then byte % 64 + 0x80 else byte

unfoldable pub mark_from : ℕ → List ℕ → List ℕ
mark_from i [] = []
mark_from i (byte ∷ bytes) = mark_byte i byte ∷ mark_from (suc i) bytes

abbrev pub unified_uuid_seed : Text
unified_uuid_seed = text "weather.app/unified-station/v1"

unfoldable pub unified_station_uuid : (List ℕ → List ℕ) → Text → Text
unified_station_uuid digest canonical_name =
    format_uuid
      (mark_from 0 (take 16 (digest (as_bytes unified_uuid_seed ++ (0 ∷ as_bytes canonical_name)))))

-- The elements of a list from an index on, 0 past its end.
abbrev at : List ℕ → ℕ → ℕ
at [] i = 0
at (x ∷ xs) zero = x
at (x ∷ xs) (suc i) = at xs i

abbrev span : ℕ → ℕ → List ℕ → List ℕ
span i zero l = []
span i (suc n) l = at l i ∷ span (suc i) n l

span_tail : (i n x : ℕ) (l : List ℕ) → span (suc i) n (x ∷ l) ≡ span i n l
span_tail i zero x l = refl
span_tail i (suc n) x l = ap (λ r. at l i ∷ r) (span_tail (suc i) n x l)

take-span : (n : ℕ) (l : List ℕ) → n ≤ length l → take n l ≡ span 0 n l
take-span zero l h = refl
take-span (suc n) [] h = absurd (omega arith)
take-span (suc n) (x ∷ l) h =
    ap (λ r. x ∷ r) (take-span n l (omega arith) ∙ sym (span_tail 0 n x l))

at-byte : (l : List ℕ) (i : ℕ) → All (λ b. b < 256) l → at l i < 256
at-byte [] i h = omega arith
at-byte (x ∷ l) zero h = h.0
at-byte (x ∷ l) (suc i) h = at-byte l i h.1

version_digit : some (hex_digit 5) ≡ some b'5'
unfolding hex_digit
version_digit = refl

marked-format :
    (l : List ℕ)
    → at l 8 < 256
    → let id = format_uuid (mark_from 0 (span 0 16 l)) in
      (length id ≡ 36)
      × (get_elem? id 8 ≡ some b'-')
      × (get_elem? id 13 ≡ some b'-')
      × (get_elem? id 14 ≡ some b'5')
      × (get_elem? id 18 ≡ some b'-')
      × (get_elem? id 19 ≡ some (hex_digit (8 + (at l 8 / 16) % 4)))
      × (get_elem? id 23 ≡ some b'-')
unfolding format_uuid format_from mark_from mark_byte hyphen_before hex_byte
marked-format l h = (
  refl,
  refl,
  refl,
  ap (λ n. some (hex_digit n)) (omega arith) ∙ version_digit,
  refl,
  ap (λ n. some (hex_digit n)) (omega arith),
  refl,
)

-- The digest of a hash: at least sixteen bytes.
pub record IsDigest (digest : List ℕ → List ℕ) : Type 0 where
  pub long : (l : List ℕ) → 16 ≤ length (digest l)
  pub in_bytes : (l : List ℕ) → All (λ b. b < 256) (digest l)

-- With a digest of at least sixteen bytes, an identifier has 36 characters with a hyphen at places
-- 8, 13, 18 and 23, the digit 5 as its version, and one of 8, 9, a and b as its variant.
pub unified_station_uuid_format :
    (digest : List ℕ → List ℕ) (name : Text)
    → IsDigest digest
    → let id = unified_station_uuid digest name in
      (length id ≡ 36)
      × (get_elem? id 8 ≡ some b'-')
      × (get_elem? id 13 ≡ some b'-')
      × (get_elem? id 14 ≡ some b'5')
      × (get_elem? id 18 ≡ some b'-')
      × ((d : ℕ) × (d < 4) × (get_elem? id 19 ≡ some (hex_digit (8 + d))))
      × (get_elem? id 23 ≡ some b'-')
unfolding unified_station_uuid
unified_station_uuid_format digest name v =
    let bytes = digest (as_bytes unified_uuid_seed ++ (0 ∷ as_bytes name)) in
    rw (take-span 16 bytes (v.long _)) (
      let (len, h8, h13, v5, h18, var, h23) =
        marked-format bytes (at-byte bytes 8 (v.in_bytes _)) in
      (len, h8, h13, v5, h18, ((at bytes 8 / 16) % 4, omega arith, var), h23))
