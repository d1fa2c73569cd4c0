-- ===== src/Schema/Station/Paths.antt =====
-- weather-schema/src/station.rs: the components of a station path.
use weather_app.Common.{
  false, not, List, [], ◌∷◌, ◌++◌, map, Option, none, some, ℕ, zero, suc, ◌≡◌, refl, sym, ap, ◌∙◌,
  subst, some-injective, none-ne-some, if_true, if_false, length-take, arith, Bool-cases, inl, inr,
  length, take, retain, contains, if◌then◌else◌, eqb, eqb_iff, list_eq, nat_eq, All,
}
use weather_app.Common.Text.{
  Text, is_empty, is_whitespace, trim, trim_start, trim_end, keep_unless_blank, split, push_front,
  join,
}
use weather_app.Schema.Station.{
  dash, separator, station_parts, normalize_station_name, parent_station_name,
}

-- A component as `normalize_station_name` leaves it.
pub record IsPart (p : Text) : Type 0 where
  pub some_text : is_empty p ≡ false
  pub trimmed : trim p ≡ p
  pub plain : contains p dash ≡ false

trim_end-keep :
    (c : ℕ) (r : Text) → trim_end r ≡ r → trim_end (keep_unless_blank c r) ≡ keep_unless_blank c r
unfolding trim_end
trim_end-keep c [] h = ground arith
trim_end-keep c (d ∷ r) h = ap (keep_unless_blank c) h

trim_end_idem : (s : Text) → trim_end (trim_end s) ≡ trim_end s
unfolding trim_end
trim_end_idem [] = refl
trim_end_idem (c ∷ s) = trim_end-keep c (trim_end s) (trim_end_idem s)

trim_start-keep :
    (c : ℕ) (r : Text)
    → is_whitespace c ≡ false
    → trim_start (keep_unless_blank c r) ≡ keep_unless_blank c r
unfolding trim_start
trim_start-keep c [] h = ground (arith, h)
trim_start-keep c (d ∷ r) h = ground (arith, h)

trim_start-trim : (s : Text) → trim_start (trim_end (trim_start s)) ≡ trim_end (trim_start s)
unfolding trim_start trim_end
trim_start-trim [] = refl
trim_start-trim (c ∷ s) = elim (Bool-cases (is_whitespace c)) [
  | inl blank ↦ rw blank (trim_start-trim s)
  | inr start ↦ rw start (trim_start-keep c (trim_end s) start)
]

trim_idem : (s : Text) → trim (trim s) ≡ trim s
unfolding trim
trim_idem s = ap trim_end (trim_start-trim s) ∙ trim_end_idem (trim_start s)

contains-keep :
    (d : ℕ) (r : Text) (c : ℕ)
    → eqb d c ≡ false
    → contains r c ≡ false
    → contains (keep_unless_blank d r) c ≡ false
contains-keep d [] c h k = ground (arith, h)
contains-keep d (x ∷ r) c h k = ground (arith, h, k)

contains-trim_end : (s : Text) (c : ℕ) → contains s c ≡ false → contains (trim_end s) c ≡ false
unfolding trim_end
contains-trim_end [] c h = refl
contains-trim_end (d ∷ s) c h =
    contains-keep d (trim_end s) c (ground (arith, h)) (contains-trim_end s c (ground (arith, h)))

contains-trim_start : (s : Text) (c : ℕ) → contains s c ≡ false → contains (trim_start s) c ≡ false
unfolding trim_start
contains-trim_start [] c h = refl
contains-trim_start (d ∷ s) c h = ground (arith, contains-trim_start s c)

contains-trim : (s : Text) (c : ℕ) → contains s c ≡ false → contains (trim s) c ≡ false
unfolding trim
contains-trim s c h = contains-trim_end (trim_start s) c (contains-trim_start s c h)

abbrev Plain : Text → Type 0
Plain p = contains p dash ≡ false

push_front-Plain :
    (c : ℕ) (ps : List Text) → eqb c dash ≡ false → All Plain ps → All Plain (push_front c ps)
push_front-Plain c [] h v = (ground (arith, h), tt)
push_front-Plain c (p ∷ ps) h v = (ground (arith, h, v.0), v.1)

split-Plain : (s : Text) → All Plain (split dash s)
unfolding split
split-Plain [] = (refl, tt)
split-Plain (c ∷ s) = elim (Bool-cases (eqb c dash)) [
  | inl cut ↦ rw cut (refl, split-Plain s)
  | inr other ↦ rw other (push_front-Plain c (split dash s) other (split-Plain s))
]

parts-IsPart :
    (ps : List Text)
    → All Plain ps
    → All IsPart (retain (λ part. not (is_empty part)) (map trim ps))
parts-IsPart [] v = tt
parts-IsPart (p ∷ ps) v = elim (Bool-cases (is_empty (trim p))) [
  | inl blank ↦ rw blank (parts-IsPart ps v.1)
  | inr filled ↦ rw filled (
    record { some_text = filled; trimmed = trim_idem p; plain = contains-trim p dash v.0 },
    parts-IsPart ps v.1,
  )
]

station_parts-IsPart : (name : Text) → All IsPart (station_parts name)
unfolding station_parts
station_parts-IsPart name = parts-IsPart (split dash name) (split-Plain name)

split-plain : (p : Text) → contains p dash ≡ false → split dash p ≡ p ∷ []
unfolding split
split-plain [] h = refl
split-plain (c ∷ p) h = ground (arith, h, split-plain p)

split-append :
    (p rest : Text)
    → contains p dash ≡ false
    → split dash (p ++ (separator ++ rest)) ≡ p ∷ split dash rest
unfolding split
split-append [] rest h = refl
split-append (c ∷ p) rest h = ground (arith, h, split-append p rest)

-- The parts of a path of one component or more.
pub split-join :
    (p : Text) (ps : List Text)
    → All IsPart (p ∷ ps)
    → split dash (join separator (p ∷ ps)) ≡ p ∷ ps
unfolding join
split-join p [] v = split-plain p v.0.plain
split-join p (q ∷ ps) v =
    split-append p (join separator (q ∷ ps)) v.0.plain ∙ ap (λ r. p ∷ r) (split-join q ps v.1)

trim-parts :
    (ps : List Text) → All IsPart ps → retain (λ part. not (is_empty part)) (map trim ps) ≡ ps
trim-parts [] v = refl
trim-parts (p ∷ ps) v = rw (v.0.trimmed, v.0.some_text) (ap (λ r. p ∷ r) (trim-parts ps v.1))

pub station_parts-join : (ps : List Text) → All IsPart ps → station_parts (join separator ps) ≡ ps
unfolding station_parts join split trim trim_start trim_end
station_parts-join [] v = refl
station_parts-join (p ∷ ps) v =
    ap (λ r. retain (λ part. not (is_empty part)) (map trim r)) (split-join p ps v)
    ∙ trim-parts (p ∷ ps) v

-- A normalized station path stays as it is when it is normalized again.
pub normalize_station_name_idem :
    (name : Text)
    → normalize_station_name (normalize_station_name name) ≡ normalize_station_name name
unfolding normalize_station_name
normalize_station_name_idem name =
    ap (join separator) (station_parts-join (station_parts name) (station_parts-IsPart name))

abbrev parent_of : List Text → Option Text
parent_of parts = if eqb (length parts) 3 then some (join separator (take 2 parts)) else none

All-take : (n : ℕ) (ps : List Text) → All IsPart ps → All IsPart (take n ps)
All-take zero ps v = tt
All-take (suc n) [] v = tt
All-take (suc n) (p ∷ ps) v = (v.0, All-take n ps v.1)

parent-split :
    (ps : List Text) → All IsPart ps → parent_of (split dash (join separator ps)) ≡ parent_of ps
unfolding split join
parent-split [] v = refl
parent-split (p ∷ ps) v = ap parent_of (split-join p ps v)

parent_of-parts :
    (ps : List Text) (parent : Text)
    → All IsPart ps
    → parent_of ps ≡ some parent
    → (station_parts parent ≡ take 2 ps) × (length ps ≡ 3)
parent_of-parts ps parent v h = elim (Bool-cases (eqb (length ps) 3)) [
  | inl three ↦ (
    subst (λ x. station_parts x ≡ take 2 ps) (some-injective _ _ (sym (if_true _ _ three) ∙ h))
        (station_parts-join (take 2 ps) (All-take 2 ps v)),
    (eqb_iff (length ps) 3).0 three,
  )
  | inr other ↦ absurd (none-ne-some _ (sym (if_false _ _ other) ∙ h))
]

-- The parent of a station path has the first two of its three components, and no parent itself.
parent_station_name_lem :
    (name parent : Text)
    → parent_station_name name ≡ some parent
    → (length (station_parts name) ≡ 3)
      × (station_parts parent ≡ take 2 (station_parts name))
      × (parent_station_name parent ≡ none)
unfolding parent_station_name normalize_station_name
parent_station_name_lem name parent h =
    let ps = station_parts name in
    let v = station_parts-IsPart name in
    let (parts, three) = parent_of-parts ps parent v (sym (parent-split ps v) ∙ h) in
    (
      three,
      parts,
      parent-split (station_parts parent) (station_parts-IsPart parent)
          ∙ rw parts (ground (arith, length-take 2 ps, three)),
    )
