-- ===== src/Cfs/Weight.antt =====
-- The weights and the scaling of run times of cfs.c.
use fru1t_os.Prelude.{
  ℕ, zero, suc, ◌*◌, ◌/◌, ◌%◌, ◌^◌, ◌≤◌, ◌<◌, ◌≡◌, ◌≢◌, refl, Bool, true, not, ◌&&◌, List, [], ◌∷◌,
  ltb, leb, ◌==◌, arith, length, get_or,
}
use fru1t_os.Prelude.Int.{ℤ, pos, negsuc, leb_ℤ}
use fru1t_os.Cfs.{
  SchedEntity, nice_0_load, prio_to_weight, weight_index, nice_to_weight, calc_delta_fair,
}

abbrev falls : List ℕ → Bool
falls [] = true
falls (w ∷ []) = true
falls (w ∷ v ∷ ws) = leb v w && falls (v ∷ ws)

falls_first :
    (w : ℕ) (ws : List ℕ) (i : ℕ)
    → falls (w ∷ ws) ≡ true
    → i < length (w ∷ ws)
    → get_or (w ∷ ws) i 0 ≤ w
falls_first w ws zero f h = omega arith
falls_first w [] (suc i) f h = absurd (omega (arith, h))
falls_first w (v ∷ ws) (suc i) f h =
    let le : v ≤ w = ground arith in
    let rest : falls (v ∷ ws) ≡ true = ground arith in
    omega (arith, le, falls_first v ws i rest (omega (arith, h)))

falls_at :
    (ws : List ℕ) (i j : ℕ)
    → falls ws ≡ true
    → i ≤ j
    → j < length ws
    → get_or ws j 0 ≤ get_or ws i 0
falls_at [] i j f le h = absurd (omega (arith, h))
falls_at (w ∷ ws) zero j f le h = falls_first w ws j f h
falls_at (w ∷ ws) (suc i) zero f le h = absurd (omega (arith, le))
falls_at (w ∷ []) (suc i) (suc j) f le h = absurd (omega (arith, h))
falls_at (w ∷ v ∷ ws) (suc i) (suc j) f le h =
    falls_at (v ∷ ws) i j (ground arith) (omega (arith, le)) (omega (arith, h))

index_lt : (nice : ℤ) → weight_index nice < 40
unfolding weight_index
index_lt (pos n) = ground arith
index_lt (negsuc n) = ground arith

index_le : (a b : ℤ) → leb_ℤ a b ≡ true → weight_index a ≤ weight_index b
unfolding weight_index
index_le (pos n) (pos m) h = ground arith
index_le (pos n) (negsuc m) h = ground arith
index_le (negsuc n) (pos m) h = ground arith
index_le (negsuc n) (negsuc m) h = ground arith

table_falls : falls prio_to_weight ≡ true
table_falls = refl

-- Whatever its nice value is, a weight is between 15 and 88761, and a higher nice value never has a
-- higher weight.
nice_to_weight_lem :
    (a b : ℤ)
    → leb_ℤ a b ≡ true
    → (15 ≤ nice_to_weight b) × (nice_to_weight b ≤ nice_to_weight a) × (nice_to_weight a ≤ 88761)
unfolding nice_to_weight
nice_to_weight_lem a b h = (
  falls_at prio_to_weight (weight_index b) 39 table_falls (omega (arith, index_lt b)) (omega arith),
  falls_at prio_to_weight (weight_index a) (weight_index b) table_falls (index_le a b h)
      (index_lt b),
  falls_at prio_to_weight 0 (weight_index a) table_falls (omega arith) (index_lt a),
)

-- With a weight other than that of nice 0, a time below 2 ^ 32 - 1 is scaled as if it had only its low
-- 22 bits: the product of 32 bits drops the others, so 4.2 ms count as nothing.
pub calc_delta_fair_lem :
    (delta : ℕ) (se : SchedEntity)
    → se.weight ≢ nice_0_load
    → delta < 4294967295
    → calc_delta_fair delta se ≡ delta % 4194304 * nice_0_load / se.weight
unfolding calc_delta_fair
calc_delta_fair_lem delta se ne h =
    let t : (not (se.weight == nice_0_load) && ltb delta 4294967295) ≡ true = ground arith in
    let e : (delta % 2 ^ 32 * nice_0_load) % 2 ^ 32 ≡ delta % 4194304 * nice_0_load = omega arith in
    rw (t, e) refl
