-- ===== src/Review/Reasons.antt =====
-- What the calls of `add` in `compute_route_reasons` keep, by the test of the source on keys.
use servicecheck.Base.{
  String, ◌≡◌, refl, sym, ap, subst, ◌≢◌, inl, inr, Bool, true, false, ◌&&◌, Option, none, some,
  List, [], ◌∷◌, ◌++◌, map, arith, same, same→eq, same_refl, same_comm, Bool-cases, any, All,
  Unique, Unique-append,
}
use mathlib.Core.List.{Mem, mem-cons_self, mem-cons_of_mem}
use servicecheck.Quality.Gate.{is_empty}
use servicecheck.Review.Tables.{RouteReason}
use servicecheck.Review.Routing.{
  same_optional, same_key, add_reason, add_all, review_reason, add_if_bare,
}

same_optional_refl : (a : Option String) → same_optional a a ≡ true
same_optional_refl none = refl
same_optional_refl (some a) = same_refl a

same_optional_comm : (a b : Option String) → same_optional a b ≡ same_optional b a
same_optional_comm none none = refl
same_optional_comm none (some b) = refl
same_optional_comm (some a) none = refl
same_optional_comm (some a) (some b) = same_comm a b

pub same_key_refl : (r : RouteReason) → same_key r r ≡ true
unfolding same_key
same_key_refl r =
    rw
      (
        same_refl r.code,
        same_refl r.stage,
        same_optional_refl r.event_id,
        same_optional_refl r.rule_id,
      )
      refl

same_key_comm : (a b : RouteReason) → same_key a b ≡ same_key b a
unfolding same_key
same_key_comm a b =
    rw
      (
        same_comm a.code b.code,
        same_comm a.stage b.stage,
        same_optional_comm a.event_id b.event_id,
        same_optional_comm a.rule_id b.rule_id,
      )
      refl

-- The list has a reason with this key, by the test of the source.
abbrev pub IsListed : List RouteReason → RouteReason → Type 0
IsListed reasons r = any (same_key r) reasons ≡ true

any-last : (r : RouteReason) (xs : List RouteReason) → IsListed (xs ++ r ∷ []) r
any-last r [] = ground (arith, same_key_refl r)
any-last r (x ∷ xs) = ground (arith, any-last r xs)

any-more : (r x : RouteReason) (xs : List RouteReason) → IsListed xs r → IsListed (xs ++ x ∷ []) r
any-more r x [] h = absurd (cc)
any-more r x (y ∷ xs) h = ground (arith, any-more r x xs)

-- What a call of `add` leaves.
add_reason-IsListed : (r : RouteReason) (xs : List RouteReason) → IsListed (add_reason r xs) r
unfolding add_reason
add_reason-IsListed r xs = ground (arith, any-last r xs)

add_reason-keeps :
    (r x : RouteReason) (xs : List RouteReason) → IsListed xs r → IsListed (add_reason x xs) r
unfolding add_reason
add_reason-keeps r x xs h = ground (arith, any-more r x xs h)

add_reason-Unique :
    (r : RouteReason) (xs : List RouteReason)
    → Unique same_key xs
    → Unique same_key (add_reason r xs)
unfolding add_reason
add_reason-Unique r xs u = elim (Bool-cases (any (same_key r) xs)) [
  | inl e ↦ rw e u
  | inr e ↦ rw e (Unique-append same_key same_key_comm xs r e u)
]

pub add_all-keeps :
    (r : RouteReason) (rs xs : List RouteReason) → IsListed xs r → IsListed (add_all rs xs) r
unfolding add_all
add_all-keeps r [] xs h = h
add_all-keeps r (x ∷ rs) xs h = add_all-keeps r rs (add_reason x xs) (add_reason-keeps r x xs h)

pub add_all-IsListed : (rs xs : List RouteReason) → All (IsListed (add_all rs xs)) rs
unfolding add_all
add_all-IsListed [] xs = tt
add_all-IsListed (r ∷ rs) xs = (
  add_all-keeps r rs (add_reason r xs) (add_reason-IsListed r xs),
  add_all-IsListed rs (add_reason r xs),
)

pub add_all-Unique :
    (rs xs : List RouteReason) → Unique same_key xs → Unique same_key (add_all rs xs)
unfolding add_all
add_all-Unique [] xs u = u
add_all-Unique (r ∷ rs) xs u = add_all-Unique rs (add_reason r xs) (add_reason-Unique r xs u)

pub add_if_bare-keeps :
    (b : Bool) (r : RouteReason) (xs : List RouteReason)
    → IsListed xs r
    → IsListed (add_if_bare b xs) r
unfolding add_if_bare
add_if_bare-keeps b r xs h = ground (arith, add_reason-keeps r review_reason xs h)

pub add_if_bare-Unique :
    (b : Bool) (xs : List RouteReason) → Unique same_key xs → Unique same_key (add_if_bare b xs)
unfolding add_if_bare
add_if_bare-Unique b xs u = elim (Bool-cases (b && is_empty xs)) [
  | inl e ↦ rw e (add_reason-Unique review_reason xs u)
  | inr e ↦ rw e u
]

-- What the source compares, as a value.
abbrev pub ReasonKey : Type 0
ReasonKey = String × String × Option String × Option String

abbrev pub reason_key : RouteReason → ReasonKey
reason_key r = (r.code, r.stage, r.event_id, r.rule_id)

same_optional→eq : (a b : Option String) → same_optional a b ≡ true → a ≡ b
same_optional→eq none none h = refl
same_optional→eq none (some b) h = absurd (cc)
same_optional→eq (some a) none h = absurd (cc)
same_optional→eq (some a) (some b) h = ap some (same→eq a b h)

same_key→eq : (a b : RouteReason) → same_key a b ≡ true → reason_key a ≡ reason_key b
unfolding same_key
same_key→eq a b h = ground (
  arith,
  same→eq a.code b.code,
  same→eq a.stage b.stage,
  same_optional→eq a.event_id b.event_id,
  same_optional→eq a.rule_id b.rule_id,
)

eq→same_key : (a b : RouteReason) → reason_key a ≡ reason_key b → same_key a b ≡ true
unfolding same_key
eq→same_key a b h =
    let t : same_key a a ≡ true = same_key_refl a in
    subst
      (λ k.
        (same a.code k.0
          && same a.stage k.1
          && same_optional a.event_id k.2
          && same_optional a.rule_id k.3)
        ≡ true)
      h t

pub IsListed-Mem :
    (xs : List RouteReason) (r : RouteReason)
    → IsListed xs r
    → Mem (reason_key r) (map reason_key xs)
IsListed-Mem [] r h = absurd (cc)
IsListed-Mem (x ∷ xs) r h = elim (Bool-cases (same_key r x)) [
  | inl e ↦ subst (λ k. Mem k (map reason_key (x ∷ xs))) (sym (same_key→eq r x e)) mem-cons_self
  | inr e ↦ mem-cons_of_mem (reason_key x) (IsListed-Mem xs r (ground arith))
]

-- No two reasons have one key.
abbrev pub AreDistinct : List RouteReason → Type 0
AreDistinct [] = Unit
AreDistinct (x ∷ xs) = All (λ y. reason_key x ≢ reason_key y) xs × AreDistinct xs

none_same :
    (x : RouteReason) (xs : List RouteReason)
    → any (same_key x) xs ≡ false
    → All (λ y. reason_key x ≢ reason_key y) xs
none_same x [] h = tt
none_same x (y ∷ xs) h =
    ((λ e. let t = eq→same_key x y e in absurd (ground arith)), none_same x xs (ground arith))

pub Unique-AreDistinct : (xs : List RouteReason) → Unique same_key xs → AreDistinct xs
Unique-AreDistinct [] u = tt
Unique-AreDistinct (x ∷ xs) u = (none_same x xs u.0, Unique-AreDistinct xs u.1)
