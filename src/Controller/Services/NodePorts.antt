-- ===== src/Controller/Services/NodePorts.antt =====
-- The node ports that `reconcileServices` copies from the existing service.
use unbind_operator.Base.{
  ℤ, pos, negsuc, int_eq, String, true, false, ◌&&◌, ◌==◌, ◌⊎◌, inl, inr, List, [], ◌∷◌, ◌≡◌, ◌∙◌,
  not, refl, sym, arith, Bool-cases,
}
use Prim.Native.Nat.{compare, Ordering}
use native.Mathlib.Omega.{compare-eq}
use mathlib.Core.Path.{subst}
use unbind_operator.Kube.{ServicePort}
use unbind_operator.Controller.Services.{copy_node_port}

-- Some port of the list has this number, this name and this node port.
abbrev pub Offers : ℤ → String → ℤ → List ServicePort → Type 0
Offers port name n [] = ⊥
Offers port name n (e ∷ existing) =
    ((int_eq port e.port ≡ true) × (name == e.name ≡ true) × (e.node_port ≡ n))
    ⊎ Offers port name n existing

-- No port of the list has this number and name and a node port that is set.
abbrev pub IsUnoffered : ℤ → String → List ServicePort → Type 0
IsUnoffered port name [] = Unit
IsUnoffered port name (e ∷ existing) =
    (int_eq port e.port && (name == e.name) && not (int_eq e.node_port (pos 0)) ≡ false)
    × IsUnoffered port name existing

-- What the inner loop has made of a desired port: the port itself where its node port is set or
-- nothing is offered, and otherwise the port with a node port that is set and offered.
abbrev pub Takes : List ServicePort → ServicePort → ServicePort → Type 0
Takes existing p r =
    ((r ≡ p) × ((int_eq p.node_port (pos 0) ≡ false) ⊎ IsUnoffered p.port p.name existing))
    ⊎ ((int_eq p.node_port (pos 0) ≡ true)
        × (int_eq r.node_port (pos 0) ≡ false)
        × (r ≡ record p { node_port = r.node_port })
        × Offers p.port p.name r.node_port existing)

test-eq : (o : Ordering) → elim o [ Ordering.eq ↦ true | _ ↦ false ] ≡ true → o ≡ Ordering.eq
test-eq Ordering.lt e = absurd (ground arith)
test-eq Ordering.eq e = refl
test-eq Ordering.gt e = absurd (ground arith)

int_eq-eq : (x y : ℤ) → int_eq x y ≡ true → x ≡ y
int_eq-eq (pos a) (pos b) e =
    let same : a ≡ b = compare-eq a b (test-eq (compare a b) e) in rw same refl
int_eq-eq (negsuc a) (negsuc b) e =
    let same : a ≡ b = compare-eq a b (test-eq (compare a b) e) in rw same refl
int_eq-eq (pos a) (negsuc b) e = absurd (ground arith)
int_eq-eq (negsuc a) (pos b) e = absurd (ground arith)

same_port : (p : ServicePort) (n : ℤ) → p.node_port ≡ n → record p { node_port = n } ≡ p
same_port p n e = rw (← e) refl

first_taken :
    (p e r : ServicePort) (existing : List ServicePort)
    → int_eq p.port e.port && (p.name == e.name) && int_eq p.node_port (pos 0) ≡ true
    → Takes existing (record p { node_port = e.node_port }) r
    → Takes (e ∷ existing) p r
first_taken p e r existing same (inl (kept, inl set)) =
    inr (ground arith, rw kept set, rw kept refl, inl (ground arith, ground arith, rw kept refl))
first_taken p e r existing same (inl (kept, inr unoffered)) =
    elim (Bool-cases (int_eq e.node_port (pos 0))) [
      | inl zero ↦
          let known = int_eq-eq p.node_port (pos 0) (ground arith) in
          let other = int_eq-eq e.node_port (pos 0) zero in
          inl (kept ∙ same_port p e.node_port (known ∙ sym other), inr (ground arith, unoffered))
      | inr set ↦
          inr (
            ground arith,
            rw kept set,
            rw kept refl,
            inl (ground arith, ground arith, rw kept refl),
          )
    ]
first_taken p e r existing same (inr (zero, set, rest, offers)) =
    inr (ground arith, set, rest, inr offers)

first_passed :
    (p e r : ServicePort) (existing : List ServicePort)
    → int_eq p.port e.port && (p.name == e.name) && int_eq p.node_port (pos 0) ≡ false
    → Takes existing p r
    → Takes (e ∷ existing) p r
first_passed p e r existing other (inl (kept, inl set)) = inl (kept, inl set)
first_passed p e r existing other (inl (kept, inr unoffered)) =
    elim (Bool-cases (int_eq p.node_port (pos 0))) [
      | inl zero ↦ inl (kept, inr (ground arith, unoffered))
      | inr set ↦ inl (kept, inl set)
    ]
first_passed p e r existing other (inr (zero, set, rest, offers)) =
    inr (zero, set, rest, inr offers)

-- A node port that is set stays. One that is 0 becomes one that is set of an existing port of the
-- same number and name, and stays 0 only if there is none. Nothing else of the port changes.
pub copy_node_port-Takes :
    (p : ServicePort) (existing : List ServicePort) → Takes existing p (copy_node_port p existing)
unfolding copy_node_port
copy_node_port-Takes p [] = inl (refl, inr tt)
copy_node_port-Takes p (e ∷ existing) =
    elim (Bool-cases (int_eq p.port e.port && (p.name == e.name) && int_eq p.node_port (pos 0))) [
      | inl same ↦
          let step : copy_node_port p (e ∷ existing)
              ≡ copy_node_port (record p { node_port = e.node_port }) existing =
            rw same refl in
          subst (Takes (e ∷ existing) p) (sym step) (
            first_taken p e _ existing same
              (copy_node_port-Takes (record p { node_port = e.node_port }) existing))
      | inr other ↦
          let step : copy_node_port p (e ∷ existing) ≡ copy_node_port p existing = rw other refl in
          subst (Takes (e ∷ existing) p) (sym step)
            (first_passed p e _ existing other (copy_node_port-Takes p existing))
    ]

pub copy_node_port-set :
    (p : ServicePort) (existing : List ServicePort)
    → int_eq p.node_port (pos 0) ≡ false
    → copy_node_port p existing ≡ p
unfolding copy_node_port
copy_node_port-set p [] h = refl
copy_node_port-set p (e ∷ existing) h = ground (arith, copy_node_port-set p existing h)
