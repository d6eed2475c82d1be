-- ===== src/Locator/Settled.antt =====
-- The second loop of update: where all links count, it leaves them as they are.
use ptool.Base.{
  ℕ, suc, ◌+◌, ◌≤◌, ◌<◌, Bool, true, not, ◌&&◌, List, [], ◌∷◌, length, ◌≡◌, refl, ap, inl, inr,
  Bool-cases, All, arith,
}
use ptool.Base.Int.{ℤ, pos}
use ptool.Base.Int64.Exact.{add64_pos}
use ptool.Base.Text.{Text}
use ptool.Locator.{FileLink, is_located, is_used_twice, settle}

-- A located link whose file no other one uses.
abbrev pub is_settled : List (Text × ℤ) → FileLink → Bool
is_settled counts link = is_located link && not (is_used_twice counts link)

pub record Settles (counts : List (Text × ℤ)) (links : List FileLink) (r : List FileLink × ℤ × Bool)
    : Type 0 where
  pub count : ℕ
  pub count_eq : r.1 ≡ pos count
  pub few : count ≤ length links
  pub same_length : length r.0 ≡ length links
  pub full : count ≡ length links → All (λ l. is_settled counts l ≡ true) links × (r.0 ≡ links)

too_many : (a b : ℕ) → a ≤ b → a ≡ suc b → ⊥
too_many a b h k = omega arith

pub settle-Settles :
    (counts : List (Text × ℤ)) (links : List FileLink)
    → length links < 9223372036854775808
    → Settles counts links (settle counts links)
unfolding settle
settle-Settles counts [] h = record {
  count = 0;
  count_eq = refl;
  few = omega arith;
  same_length = refl;
  full = λ _. (tt, refl);
}
settle-Settles counts (link ∷ links) h =
    let rest = settle-Settles counts links (omega arith) in
    elim (Bool-cases (is_located link)) [
      | inl e ↦ elim (Bool-cases (is_used_twice counts link)) [
        | inl f ↦
            rw (e, f)
              (record {
                count = rest.count;
                count_eq = rest.count_eq;
                few = omega (arith, rest.few);
                same_length = ap suc rest.same_length;
                full = λ k. elim (too_many rest.count (length links) rest.few k) [ ];
              })
        | inr f ↦
            rw (e, f)
              (record {
                count = rest.count + 1;
                count_eq = rw rest.count_eq (add64_pos rest.count 1 (omega (arith, rest.few)));
                few = omega (arith, rest.few);
                same_length = ap suc rest.same_length;
                full = λ k.
                    let (all, same) = rest.full (omega arith) in
                    ((rw (e, f) refl, all), ap (λ ls. link ∷ ls) same);
              })
      ]
      | inr e ↦ rw e (record {
        count = rest.count;
        count_eq = rest.count_eq;
        few = omega (arith, rest.few);
        same_length = ap suc rest.same_length;
        full = λ k. elim (too_many rest.count (length links) rest.few k) [ ];
      })
    ]
