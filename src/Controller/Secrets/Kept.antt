-- ===== src/Controller/Secrets/Kept.antt =====
-- `ensureMongoDBSecret` and `ensureClickhouseSecret` on a secret that exists.
use unbind_operator.Base.{
  String, ◌≡◌, refl, none, some, true, false, inl, inr, arith, eq_iff, is_some, deref_or, [], ◌==◌,
  Option-cases, Bool-cases, ◌⊎◌, ◌<>◌,
}
use mathlib.Core.Path.{subst}
use unbind_operator.Base.Dict.{Dict, lookup, insert, lookup-insert, lookup-insert_self}
use unbind_operator.Base.Outcome.{Outcome, ok, err, panic}
use unbind_operator.Kube.{Secret}
use unbind_operator.Client.{Client}
use unbind_operator.Client.Monad.{World, wrapping, ◌>>=◌, continue, wrap_result}
use unbind_operator.Controller.Password.{generate_secure_password}
use unbind_operator.Controller.Secrets.{generate_missing, put}

-- The second secret has the key, and differs from the first at most in that key, if the first lacks it.
abbrev pub Completes : String → Secret → Secret → Type 0
Completes key before after =
    (is_some (lookup key (deref_or after.contents [])) ≡ true)
    × ((k : String)
        → (lookup k (deref_or after.contents []) ≡ lookup k (deref_or before.contents []))
          ⊎ ((k ≡ key) × (lookup k (deref_or before.contents []) ≡ none)))

inserted :
    (key password : String) (m : Dict String) (before : Secret)
    → before.contents ≡ some m
    → is_some (lookup key m) ≡ false
    → Completes key before (record before { contents = some (insert key password m) })
inserted key password m before e missing = (
  simp (lookup-insert_self) refl,
  λ k. elim (Bool-cases (key == k)) [
    | inl same ↦ inr (ground (arith, eq_iff key k), ground (arith, eq_iff key k))
    | inr other ↦ inl (ground (arith, lookup-insert k key password m))
  ],
)

module _ {C : Client} (key text : String) (before after : Secret) where
  put-Completes :
      (r : Outcome C.Failure String) (w : World C)
      → is_some (lookup key (deref_or before.contents [])) ≡ false
      → (continue (wrap_result text r) (λ password. put {C = C} key password before) w).0 ≡ ok after
      → Completes key before after
  put-Completes (ok password) w missing h = elim (Option-cases before.contents) [
    | inl empty ↦ absurd (ground arith)
    | inr (m, e) ↦
        let same : record before { contents = some (insert key password m) } ≡ after =
          ground arith in
        subst (Completes key before) same (inserted key password m before e (ground arith))
  ]
  put-Completes (err e) w missing h = absurd (ground arith)
  put-Completes panic w missing h = absurd (ground arith)

module _ {C : Client} where
  -- If the value of a key is generated where it is missing, and this succeeds, then the secret has
  -- the key afterwards, and every other entry, and the key's own if it was there, is as before.
  pub generate_missing-Completes :
      (key text : String) (before after : Secret) (w : World C)
      → (generate_missing key text before w).0 ≡ ok after
      → Completes key before after
  unfolding generate_missing wrapping ◌>>=◌
  generate_missing-Completes key text before after w h =
      elim (Bool-cases (is_some (lookup key (deref_or before.contents [])))) [
        | inl there ↦
            let same : before ≡ after = ground arith in
            subst (Completes key before) same (there, λ k. inl refl)
        | inr missing ↦
            put-Completes {C = C} key ("failed to generate " <> text) before after
              (generate_secure_password 32 w).0 (generate_secure_password 32 w).1 missing
              (ground arith)
      ]
