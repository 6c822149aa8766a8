-- ===== src/Epoll/Calls.antt =====
-- The numbers of the instances of epoll.c, and the calls that are refused.
use native.Mathlib.Decide.{ℕ_discrete}
use fru1t_os.Prelude.{
  ℕ, zero, suc, ◌+◌, ◌<◌, ◌≡◌, ◌≢◌, ◌⊎◌, inl, inr, refl, sym, ap, ◌∙◌, true, false, none, some,
  List, [], ◌∷◌, ◌==◌, arith, length, get_or, set, Bool-cases, get_or-set_self, get_or-set_ne,
}
use fru1t_os.Prelude.Int.{pos, negsuc}
use fru1t_os.Epoll.{
  EpollInstance, Epoll, closed, equals, get_from, find_closed, epoll_get_instance, epoll_create,
  instance_at,
}

-- the instances in use have the numbers of their slots
abbrev pub IsNumbered : {W : Type 0} → Epoll W → Type 0
IsNumbered s = (j : ℕ) → (instance_at j s).in_use ≡ true → (instance_at j s).epfd ≡ negsuc j

find_closed-cases :
    (es : List EpollInstance) (i : ℕ)
    → (find_closed i es ≡ none) × ((j : ℕ) → j < length es → (get_or es j closed).in_use ≡ true)
      ⊎ ((k : ℕ) × (find_closed i es ≡ some (i + k))
          × (k < length es)
          × ((get_or es k closed).in_use ≡ false)
          × ((j : ℕ) → j < k → (get_or es j closed).in_use ≡ true))
unfolding find_closed
find_closed-cases [] i = inl (refl, λ j h. absurd (omega arith))
find_closed-cases (e ∷ es) i = elim (Bool-cases e.in_use) [
  | inr free ↦
      inr (0, rw free (ap some (omega arith)), omega arith, free, λ j h. absurd (omega arith))
  | inl used ↦ elim (find_closed-cases es (i + 1)) [
    | inl (no_one, all) ↦ inl (rw used no_one, λ j h. front used all j h)
    | inr (k, at, lt, free, all) ↦
        inr (
          suc k,
          rw used (at ∙ ap some (omega arith)),
          omega arith,
          free,
          λ j h. ahead used all j h,
        )
  ]
]
  where
    front :
        e.in_use ≡ true
        → ((j : ℕ) → j < length es → (get_or es j closed).in_use ≡ true)
        → (j : ℕ) → j < suc (length es)
        → (get_or (e ∷ es) j closed).in_use ≡ true
    front used all zero h = used
    front used all (suc j) h = all j (omega arith)

    ahead :
        {k : ℕ}
        → e.in_use ≡ true
        → ((j : ℕ) → j < k → (get_or es j closed).in_use ≡ true)
        → (j : ℕ) → j < suc k
        → (get_or (e ∷ es) j closed).in_use ≡ true
    ahead used all zero h = used
    ahead used all (suc j) h = all j (omega arith)

equals_number : (i j : ℕ) → equals (negsuc i) (negsuc j) ≡ (i == j)
equals_number i j = ground arith

-- the slot of a number, where the slots from `i` on have their numbers
get_from-slot :
    (es : List EpollInstance) (i k : ℕ)
    → ((j : ℕ) → (get_or es j closed).in_use ≡ true → (get_or es j closed).epfd ≡ negsuc (i + j))
    → (get_or es k closed).in_use ≡ true
    → get_from (negsuc (i + k)) i es ≡ some (i + k)
unfolding get_from
get_from-slot [] i k numbered used = cc
get_from-slot (e ∷ es) i zero numbered used =
    let hit : equals e.epfd (negsuc (i + 0)) ≡ true =
      ap (λ n. equals n (negsuc (i + 0))) (numbered 0 used)
      ∙ equals_number (i + 0) (i + 0)
      ∙ ground arith in
    rw (used, hit) (ap some (omega arith))
get_from-slot (e ∷ es) i (suc k) numbered used =
    let rest : get_from (negsuc (i + suc k)) (i + 1) es ≡ some (i + suc k) =
      get_from-shift (i + suc k) (omega arith)
        (get_from-slot es (i + 1) k (λ j u. numbered (suc j) u ∙ ap negsuc (omega arith)) used) in
    elim (Bool-cases e.in_use) [
      | inr free ↦ rw free rest
      | inl u ↦
          let miss : equals e.epfd (negsuc (i + suc k)) ≡ false =
            ap (λ n. equals n (negsuc (i + suc k))) (numbered 0 u)
            ∙ equals_number (i + 0) (i + suc k)
            ∙ ground arith in
          rw (u, miss) rest
    ]
  where
    get_from-shift :
        (n : ℕ)
        → n ≡ (i + 1) + k
        → get_from (negsuc ((i + 1) + k)) (i + 1) es ≡ some ((i + 1) + k)
        → get_from (negsuc n) (i + 1) es ≡ some n
    get_from-shift n e h = rw e h

abbrev opened : ℕ → EpollInstance
opened i = record { epfd = negsuc i; items_tree = 0; num_items = pos 0; in_use = true }

at_slot :
    (es : List EpollInstance) (i n : ℕ)
    → n ≡ i
    → get_from (negsuc n) 0 es ≡ some n
    → get_from (negsuc i) 0 es ≡ some i
at_slot es i n e h = rw (← e) h

module _ {W : Type 0} where
  -- an instance that `epoll_create` has opened in slot `i`
  pub record Opened (i : ℕ) (s s' : Epoll W) : Type 0 where
    pub was_free : (instance_at i s).in_use ≡ false
    pub first : (j : ℕ) → j < i → (instance_at j s).in_use ≡ true
    pub found : epoll_get_instance (negsuc i) s' ≡ some i
    pub no_items : ((instance_at i s').items_tree ≡ 0) × ((instance_at i s').num_items ≡ pos 0)
    pub others : (j : ℕ) → i ≢ j → instance_at j s' ≡ instance_at j s
    pub numbered : IsNumbered s'

  with_opened : (i : ℕ) (s : Epoll W) → Epoll W
  with_opened i s = record s { instances = set s.instances i (opened i) }

  module _ (s : Epoll W) (i : ℕ) (lt : i < length s.instances) where
    opened_at : instance_at i (with_opened i s) ≡ opened i
    unfolding with_opened
    opened_at = get_or-set_self s.instances i (opened i) closed lt

    opened_beside : (j : ℕ) → i ≢ j → instance_at j (with_opened i s) ≡ instance_at j s
    unfolding with_opened
    opened_beside j ne = get_or-set_ne s.instances i j (opened i) closed ne

    opened-IsNumbered : IsNumbered s → IsNumbered (with_opened i s)
    opened-IsNumbered v j u = elim (ℕ_discrete i j) [
      | yes e ↦ rw (← e) (ap (λ (n : EpollInstance). n.epfd) opened_at)
      | no ne ↦
          let b = opened_beside j ne in
          ap (λ (n : EpollInstance). n.epfd) b
          ∙ v j (sym (ap (λ (n : EpollInstance). n.in_use) b) ∙ u)
    ]

    opened_found : IsNumbered s → epoll_get_instance (negsuc i) (with_opened i s) ≡ some i
    unfolding epoll_get_instance
    opened_found v =
        let used : (instance_at i (with_opened i s)).in_use ≡ true =
          ap (λ (n : EpollInstance). n.in_use) opened_at in
        let at =
          get_from-slot (with_opened i s).instances 0 i
            (λ j u. opened-IsNumbered v j u ∙ ap negsuc (omega arith)) used in
        at_slot (with_opened i s).instances i (0 + i) (omega arith) at

-- Where the instances in use have the numbers of their slots, `epoll_create` answers -999 and changes
-- nothing exactly when all slots are in use. Else it opens the first free one without items: its number
-- finds it, the other instances are as they were, and the numbers fit again.
pub epoll_create_lem :
    {W : Type 0} {s : Epoll W}
    → IsNumbered s
    → (epoll_create s ≡ (negsuc 998, s))
        × ((j : ℕ) → j < length s.instances → (instance_at j s).in_use ≡ true)
      ⊎ ((i : ℕ) × (s' : Epoll W) × (epoll_create s ≡ (negsuc i, s')) × Opened i s s')
unfolding epoll_create with_opened
epoll_create_lem {W} {s} v = elim (find_closed-cases s.instances 0) [
  | inl (no_one, all) ↦ inl (rw (no_one, epoll_create) refl, all)
  | inr (i, at, lt, free, all) ↦
      let at' : find_closed 0 s.instances ≡ some i = at ∙ ap some (omega arith) in
      inr (
        i,
        with_opened i s,
        rw (at', epoll_create) refl,
        record {
          was_free = free;
          first = all;
          found = opened_found s i lt v;
          no_items = (
            ap (λ (n : EpollInstance). n.items_tree) (opened_at s i lt),
            ap (λ (n : EpollInstance). n.num_items) (opened_at s i lt),
          );
          others = opened_beside s i lt;
          numbered = opened-IsNumbered s i lt v;
        },
      )
]
