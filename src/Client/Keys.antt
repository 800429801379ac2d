-- ===== src/Client/Keys.antt =====
-- client.go, `buildUniqueKey`: which keys stay reserved, and when two keys are the same.
use goncordia.Prelude.{
  ◌≡◌, ◌≢◌, refl, sym, ap, ◌∙◌, ◌⊎◌, inl, inr, Bool-cases, Option-cases, String, starts_with,
  Option, some, arith,
}
use Prim.Native.String.{◌++◌}
use Prim.Native.String.append
use text.Mathlib.TextPositions.{starts_with-append}
use text.Mathlib.TextEquality.{starts_with_iff}
use goncordia.Time.{Time}
use goncordia.Core.{JobArgs, UniqueOpts}
use goncordia.Driver.{is_permanent_unique_key}
use goncordia.Client.{Codecs, ClientError, canonical, canonical_args, key_prefix, build_unique_key}

-- A key that is made is the prefix and the digest of the canonical struct's text.
pub build_unique_key-made :
    (codecs : Codecs) (args : JobArgs) (queue : String) (opts : UniqueOpts) (now : Time)
    (key : String)
    → build_unique_key codecs args queue (some opts) now ≡ inr key
    → (b : Option String) × (payload : String) × (canonical_args opts args ≡ inr b)
      × (codecs.marshal (canonical opts args queue now b) ≡ some payload)
      × (key ≡ key_prefix opts ++ codecs.digest payload)
unfolding build_unique_key
build_unique_key-made codecs args queue opts now key e =
    elim (args_cases (canonical_args opts args)) [
      | inl (x, broken) ↦ absurd (ground (arith, broken))
      | inr (b, shown) ↦ elim (Option-cases (codecs.marshal (canonical opts args queue now b))) [
        | inl failed ↦ absurd (ground (arith, shown, failed))
        | inr (payload, made) ↦ (b, payload, shown, made, ground (arith, shown, made))
      ]
    ]
  where
    args_cases :
        (r : ClientError ⊎ Option String)
        → ((x : ClientError) × (r ≡ inl x)) ⊎ ((b : Option String) × (r ≡ inr b))
    args_cases (inl x) = inl (x, refl)
    args_cases (inr b) = inr (b, refl)

-- A text that begins with "u2_" does not begin with "uf2_".
not_permanent : (rest tail : String) → ("uf2_" ++ tail) ≢ ("u2_" ++ rest)
not_permanent rest tail e =
    let left : ("uf2_" ++ tail) ≡ String.◌∷◌ "u" (String.◌∷◌ "f" ("2_" ++ tail)) =
      append.cons "u" "f2_" tail ∙ ap (String.◌∷◌ "u") (append.cons "f" "2_" tail) in
    let right : ("u2_" ++ rest) ≡ String.◌∷◌ "u" (String.◌∷◌ "2" ("_" ++ rest)) =
      append.cons "u" "2_" rest ∙ ap (String.◌∷◌ "u") (append.cons "2" "_" rest) in
    cc (sym left ∙ e ∙ right)

permanent_prefix :
    (opts : UniqueOpts) (rest : String)
    → is_permanent_unique_key (key_prefix opts ++ rest) ≡ opts.forever
unfolding is_permanent_unique_key key_prefix
permanent_prefix opts rest = elim (Bool-cases opts.forever) [
  | inl f ↦ rw (f, key_prefix) (starts_with-append "uf2_" rest)
  | inr f ↦
      rw (f, key_prefix)
        (elim (Bool-cases (starts_with ("u2_" ++ rest) "uf2_")) [
          | inr other ↦ other
          | inl yes_it ↦
              let (tail, e) = (starts_with_iff ("u2_" ++ rest) "uf2_").0 yes_it in
              absurd (not_permanent rest tail e)
        ])
]

-- A key that is made stays reserved after the job's end exactly where the options say `Forever`.
pub unique_key-permanent :
    (codecs : Codecs) (args : JobArgs) (queue : String) (opts : UniqueOpts) (now : Time)
    (key : String)
    → build_unique_key codecs args queue (some opts) now ≡ inr key
    → is_permanent_unique_key key ≡ opts.forever
unique_key-permanent codecs args queue opts now key e =
    let (b, payload, shown, made, at) = build_unique_key-made codecs args queue opts now key e in
    ap is_permanent_unique_key at ∙ permanent_prefix opts (codecs.digest payload)
