-- ===== src/Masking/Memo.antt =====
-- About the cache of decisions of pkg/masking/masking.go, and what becomes of the fields of a map.
use Prim.Native.Nat.{ℕ}
use Prim.Native.String.{String}
use mathlib.Core.Path.{◌≡◌, refl, ap, ap₂, ◌∙◌}
use mathlib.Core.Logic.{inl, inr}
use mathlib.Core.Bool.{Bool, true, false}
use mathlib.Core.Option.{Option, none, some}
use mathlib.Core.List.{List, [], ◌∷◌}
use native.Mathlib.Omega.{arith}
use text.Mathlib.Text.{◌==◌}
use text.Mathlib.TextEquality.{eq_iff}
use mywork_automate.Prelude.{Bool-cases, Option-cases, if◌then◌else◌, lookup}
use mywork_automate.Value.{
  Value, null, bool, str, int, uint, float32, float64, number, stringer, valuer, valuer_error,
  other, arr, objs, obj, Values, nil, cons, Objects, none_left, row, Fields, end, field,
}
use mywork_automate.Masking.{
  Engine, Decision, eval_style, mask_value, style_for, mask_map, copy_value, mask_rows, copy_values,
  mask_items,
}

module _ (format_float : ℕ → ℕ → String) (sha256_hex : String → String) (e : Engine)
    (point : String) (roles : List String) where
  abbrev decide : String → Decision
  decide key = eval_style e key point roles

  -- The same without a cache: each key is decided anew.
  mutual
    pub plain_map : Fields → Fields
    plain_map end = end
    plain_map (field k v fs) =
        let kept = plain_value v in
        let rest = plain_map fs in
        field k
          (if (decide k).mask then mask_value format_float sha256_hex v (decide k).style else kept)
          rest

    pub plain_value : Value → Value
    plain_value (obj fs) = obj (plain_map fs)
    plain_value (objs os) = objs (plain_rows os)
    plain_value (arr vs) = arr (plain_values vs)
    plain_value v = v

    pub plain_rows : Objects → Objects
    plain_rows none_left = none_left
    plain_rows (row fs os) = row (plain_map fs) (plain_rows os)

    pub plain_values : Values → Values
    plain_values nil = nil
    plain_values (cons v vs) = cons (plain_value v) (plain_values vs)

  -- Every decision of the cache is the one that the rules give.
  abbrev IsFaithful : List (String × Decision) → Type 0
  IsFaithful cache = (k : String) (d : Decision) → lookup k cache ≡ some d → d ≡ decide k

  abbrev style : String → List (String × Decision) → Decision × List (String × Decision)
  style = style_for format_float sha256_hex e point roles

  remembered :
      (key : String) (cache : List (String × Decision))
      → IsFaithful cache
      → IsFaithful ((key, decide key) ∷ cache)
  unfolding lookup
  remembered key cache h k d found = elim (Bool-cases (key == k)) [
    | inl same ↦
        let s : key ≡ k = (eq_iff key k).0 same in
        let f : decide key ≡ d = ground arith in rw (← f, s) refl
    | inr differs ↦ h k d (ground arith)
  ]

  style_for-IsFaithful :
      (key : String) (cache : List (String × Decision))
      → IsFaithful cache
      → ((style key cache).0 ≡ decide key) × IsFaithful (style key cache).1
  unfolding style_for
  style_for-IsFaithful key cache h = elim (Option-cases (lookup key cache)) [
    | inr (d, known) ↦ rw (known, style_for) (h key d known, h)
    | inl missing ↦ rw (missing, style_for) (refl, remembered key cache h)
  ]

  -- A result with its cache is the plain one, and the cache stays faithful.
  abbrev Same : {A : Type 0} → A × List (String × Decision) → A → Type 0
  Same r plain = (r.0 ≡ plain) × IsFaithful r.1

  choose-Same :
      (b : Bool) (v w : Value) (d d' : List (String × Decision)) (plain : Value)
      → IsFaithful d
      → (w ≡ plain) × IsFaithful d'
      → Same (if b then (v, d) else (w, d')) (if b then v else plain)
  choose-Same true v w d d' plain h k = (refl, h)
  choose-Same false v w d d' plain h k = k

  abbrev Cache : Type 0
  Cache = List (String × Decision)

  mutual
    unfolding mask_map plain_map

    map-Same :
        (fs : Fields) (c : Cache)
        → IsFaithful c
        → Same (mask_map format_float sha256_hex e point roles fs c) (plain_map fs)
    map-Same end c h = (refl, h)
    map-Same (field k v fs) c h =
        let (decided, h₁) = style_for-IsFaithful k c h in
        let r = style k c in
        let d = decide k in
        let kept = copy_value format_float sha256_hex e point roles v r.1 in
        let masked : Decision → Value = λ d. mask_value format_float sha256_hex v d.style in
        let (here, h₂) =
          choose-Same r.0.mask (masked r.0) kept.0 r.1 kept.1 (plain_value v) h₁
            (value-Same v r.1 h₁) in
        let (after, h₃) = map-Same fs _ h₂ in
        (
          ap₂ (λ w g. field k w g)
              (here ∙ ap (λ (d : Decision). if d.mask then masked d else plain_value v) decided)
              after,
          h₃,
        )

    value-Same :
        (v : Value) (c : Cache)
        → IsFaithful c
        → Same (copy_value format_float sha256_hex e point roles v c) (plain_value v)
    value-Same (obj fs) c h = let (p, h') = map-Same fs c h in (ap obj p, h')
    value-Same (objs os) c h = let (p, h') = rows-Same os c h in (ap objs p, h')
    value-Same (arr vs) c h = let (p, h') = values-Same vs c h in (ap arr p, h')
    value-Same null c h = (refl, h)
    value-Same (bool b) c h = (refl, h)
    value-Same (str s) c h = (refl, h)
    value-Same (int n) c h = (refl, h)
    value-Same (uint n) c h = (refl, h)
    value-Same (float32 n) c h = (refl, h)
    value-Same (float64 n) c h = (refl, h)
    value-Same (number s) c h = (refl, h)
    value-Same (stringer s) c h = (refl, h)
    value-Same (valuer v) c h = (refl, h)
    value-Same valuer_error c h = (refl, h)
    value-Same other c h = (refl, h)

    rows-Same :
        (os : Objects) (c : Cache)
        → IsFaithful c
        → Same (mask_rows format_float sha256_hex e point roles os c) (plain_rows os)
    rows-Same none_left c h = (refl, h)
    rows-Same (row fs os) c h =
        let (p, h₁) = map-Same fs c h in let (q, h₂) = rows-Same os _ h₁ in (ap₂ row p q, h₂)

    values-Same :
        (vs : Values) (c : Cache)
        → IsFaithful c
        → Same (copy_values format_float sha256_hex e point roles vs c) (plain_values vs)
    values-Same nil c h = (refl, h)
    values-Same (cons v vs) c h =
        let (p, h₁) = value-Same v c h in let (q, h₂) = values-Same vs _ h₁ in (ap₂ cons p q, h₂)

  -- The cache changes nothing: the masked items are those of deciding every key anew by the rules.
  pub mask_items-plain :
      (items : Objects) → mask_items format_float sha256_hex e point roles items ≡ plain_rows items
  unfolding mask_items lookup
  mask_items-plain items = (rows-Same items [] (λ k d found. absurd (cc))).0

  -- The value of a key in a map.
  abbrev pub value_of : String → Fields → Option Value
  value_of key end = none
  value_of key (field k v fs) = let rest = value_of key fs in if k == key then some v else rest

  -- What becomes of the value of a key: masked in the style of the first rule that applies to the key,
  -- or else copied, with what lies inside masked.
  abbrev pub treated : String → Option Value → Option Value
  treated key none = none
  treated key (some v) = some (
      if (eval_style e key point roles).mask
      then mask_value format_float sha256_hex v (eval_style e key point roles).style
      else plain_value v)

  plain_map_lem :
      (key : String) (fs : Fields) → value_of key (plain_map fs) ≡ treated key (value_of key fs)
  unfolding plain_map
  plain_map_lem key end = refl
  plain_map_lem key (field k v fs) = elim (Bool-cases (k == key)) [
    | inl same ↦ let s : k ≡ key = (eq_iff k key).0 same in rw (same, s)
    | inr differs ↦ rw differs (plain_map_lem key fs)
  ]

  -- In a masked map each key has the value that the rules ask for, wherever it stands in the map.
  mask_map_lem :
      (key : String) (fs : Fields)
      → value_of key (mask_map format_float sha256_hex e point roles fs []).0
        ≡ treated key (value_of key fs)
  unfolding lookup
  mask_map_lem key fs =
      ap (value_of key) (map-Same fs [] (λ k d found. absurd (cc))).0 ∙ plain_map_lem key fs
