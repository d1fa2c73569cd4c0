-- ===== src/Schema/Correlation/Unique.antt =====
-- weather-schema/src/correlation.rs: no identifier is given out twice.
use weather_app.Common.{
  true, false, List, [], ◌∷◌, ◌++◌, none, some, ℕ, zero, suc, ◌+◌, ◌/◌, ◌%◌, ◌^◌, ◌≤◌, ◌<◌, ◌≡◌,
  refl, sym, ap, ◌∙◌, arith, leb, u64_max, length, drop, length-append, All, All-map, contains,
  distinct, list_eq, nat_eq, ◌==◌, ==_iff, Bool-cases, inl, inr, if_true, if_false,
}
use weather_app.Common.Text.{Text}
use weather_app.Schema.Uuid.{hex_digit}
use weather_app.Schema.Correlation.{CorrelationIdGenerator, hex_digits, id_text, next, issue}

hex_digit_inj : (m n : ℕ) → m < 16 → n < 16 → hex_digit m ≡ hex_digit n → m ≡ n
unfolding hex_digit
hex_digit_inj m n a b e = ground (arith, a, b, e)

length-hex_digits : (width n : ℕ) → length (hex_digits width n) ≡ width
unfolding hex_digits
length-hex_digits zero n = refl
length-hex_digits (suc width) n = omega (
  arith,
  length-append (hex_digits width (n / 16)) (hex_digit (n % 16) ∷ []),
  length-hex_digits width (n / 16),
)

-- Equal texts with ends of the same length have equal ends, and equal texts before them.
drop-append : (xs ys : Text) → drop (length xs) (xs ++ ys) ≡ ys
drop-append [] ys = refl
drop-append (x ∷ xs) ys = drop-append xs ys

cons_head : {x y : ℕ} {xs ys : Text} → Path Text (x ∷ xs) (y ∷ ys) → x ≡ y
cons_head e = cc

cons_tail : {x y : ℕ} {xs ys : Text} → Path Text (x ∷ xs) (y ∷ ys) → xs ≡ ys
cons_tail e = cc

take_front : (xs ys us vs : Text) → length xs ≡ length us → xs ++ ys ≡ us ++ vs → xs ≡ us
take_front [] ys [] vs l e = refl
take_front [] ys (u ∷ us) vs l e = absurd (omega (arith, l))
take_front (x ∷ xs) ys [] vs l e = absurd (omega (arith, l))
take_front (x ∷ xs) ys (u ∷ us) vs l e =
    cc (cons_head e, take_front xs ys us vs (omega (arith, l)) (cons_tail e))

same_end : (xs ys us vs : Text) → length ys ≡ length vs → xs ++ ys ≡ us ++ vs → ys ≡ vs
same_end xs ys us vs l e =
    sym (drop-append xs ys)
    ∙ ap (drop (length xs)) e
    ∙ ap (λ n. drop n (us ++ vs))
        (omega (arith, length-append xs ys, length-append us vs, l, ap length e))
    ∙ drop-append us vs

hex_digits_inj :
    (width m n : ℕ)
    → m < 16 ^ width
    → n < 16 ^ width
    → hex_digits width m ≡ hex_digits width n
    → m ≡ n
unfolding hex_digits
hex_digits_inj zero m n a b e = omega (arith, a, b)
hex_digits_inj (suc width) m n a b e =
    let last =
      same_end (hex_digits width (m / 16)) (hex_digit (m % 16) ∷ []) (hex_digits width (n / 16))
        (hex_digit (n % 16) ∷ []) refl e in
    let front =
      take_front (hex_digits width (m / 16)) (hex_digit (m % 16) ∷ []) (hex_digits width (n / 16))
        (hex_digit (n % 16) ∷ [])
        (length-hex_digits width (m / 16) ∙ sym (length-hex_digits width (n / 16))) e in
    omega (
      arith,
      hex_digits_inj width (m / 16) (n / 16) (omega (arith, a)) (omega (arith, b)) front,
      hex_digit_inj (m % 16) (n % 16) (omega arith) (omega arith) (cons_head last),
    )

id_text_inj :
    (scope scope' nonce nonce' : Text) (m n : ℕ)
    → m < 2 ^ 64
    → n < 2 ^ 64
    → id_text scope nonce m ≡ id_text scope' nonce' n
    → m ≡ n
unfolding id_text
id_text_inj scope scope' nonce nonce' m n a b e =
    hex_digits_inj 16 m n (omega (arith, a)) (omega (arith, b)) (
      same_end _ (hex_digits 16 m) _ (hex_digits 16 n)
        (length-hex_digits 16 m ∙ sym (length-hex_digits 16 n)) e)

-- An identifier of a sequence number from `first` on.
abbrev Issued : ℕ → Text → Type 0
Issued first id =
    (scope : Text) × (nonce : Text) × (n : ℕ) × (id ≡ id_text scope nonce n)
    × (first ≤ n)
    × (n < 2 ^ 64)

repeats_not :
    (scope nonce : Text) (n : ℕ) (l : List Text)
    → n < 2 ^ 64
    → All (Issued (n + 1)) l
    → contains l (id_text scope nonce n) ≡ false
repeats_not scope nonce n [] b v = refl
repeats_not scope nonce n (id ∷ l) b ((scope', nonce', m, e, up, small), v) =
    elim (Bool-cases (id == id_text scope nonce n)) [
      | inl same ↦
          let m_is_n : m ≡ n =
            id_text_inj scope' scope nonce' nonce m n small b
              (sym e ∙ (==_iff id (id_text scope nonce n)).0 same) in
          absurd (omega (arith, m_is_n, up))
      | inr other ↦ ground (arith, other, repeats_not scope nonce n l b v)
    ]

next-some :
    (scope : Text) (g : CorrelationIdGenerator)
    → leb (g.next_sequence + 1) u64_max ≡ true
    → next scope g
      ≡ some
          (record g { next_sequence = g.next_sequence + 1 }, id_text scope g.nonce g.next_sequence)
unfolding next
next-some scope g h = if_true _ _ h

next-none :
    (scope : Text) (g : CorrelationIdGenerator)
    → leb (g.next_sequence + 1) u64_max ≡ false
    → next scope g ≡ none
unfolding next
next-none scope g h = if_false _ _ h

fresh_once :
    (scopes : List Text) (g : CorrelationIdGenerator)
    → All (Issued g.next_sequence) (issue scopes g) × (distinct (issue scopes g) ≡ true)
unfolding issue
fresh_once [] g = (tt, refl)
fresh_once (scope ∷ scopes) g = elim (Bool-cases (leb (g.next_sequence + 1) u64_max)) [
  | inr exhausted ↦ rw (next-none scope g exhausted, issue) (tt, refl)
  | inl room ↦
      let g' = record g { next_sequence = g.next_sequence + 1 } in
      let (issued, once) = fresh_once scopes g' in
      let small : g.next_sequence < 2 ^ 64 = ground (arith, room) in
      rw (next-some scope g room, issue)
        (
          (
            (scope, g.nonce, g.next_sequence, refl, omega arith, small),
            All-map (issue scopes g') (λ id (s, n, m, e, up, b). (s, n, m, e, omega (arith, up), b))
                issued,
          ),
          ground (
            arith,
            repeats_not scope g.nonce g.next_sequence (issue scopes g') small issued,
            once,
          ),
        )
]

-- However many identifiers a process asks for, whatever their scopes, none is given out twice.
pub issue-distinct :
    (scopes : List Text) (g : CorrelationIdGenerator) → distinct (issue scopes g) ≡ true
issue-distinct scopes g = (fresh_once scopes g).1
