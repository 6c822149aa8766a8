-- ===== src/Rbtree/Round.antt =====
-- One round of the loop of `rb_insert_color`, by what its tests read.
use fru1t_os.Prelude.{
  ℕ, suc, ◌≡◌, ◌≢◌, ap, ◌∙◌, Bool, true, false, ◌==◌, some, if◌then◌else◌, arith,
}
use fru1t_os.Rbtree.{
  RbTree, rb_parent, rb_is_red, recolor, turn_left_side, turn_right_side, insert_round, insert_loop,
}

-- the round behind the reads of `parent` and `gparent`
abbrev round_at : (n p g : ℕ) → RbTree → ℕ × RbTree
round_at n p g t =
    if p == (t.nodes g).left
    then (if rb_is_red (t.nodes g).right t
        then (g, recolor p (t.nodes g).right g t)
        else turn_left_side ((t.nodes p).right == n) n p g t)
    else (if rb_is_red (t.nodes g).left t
        then (g, recolor p (t.nodes g).left g t)
        else turn_right_side ((t.nodes p).left == n) n p g t)

module _ (n p g : ℕ) (t : RbTree) (up : (t.nodes n).parent ≡ p)
    (higher : (t.nodes p).parent ≡ g) where
  round : insert_round n t ≡ round_at n p g t
  unfolding insert_round
  round = ap (λ q. round_at n q (t.nodes q).parent t) up ∙ ap (λ q. round_at n p q t) higher

  module _ (on_left : (t.nodes g).left ≡ p) where
    left_round : insert_round n t ≡ (
        if rb_is_red (t.nodes g).right t
        then (g, recolor p (t.nodes g).right g t)
        else turn_left_side ((t.nodes p).right == n) n p g t)
    left_round =
        let hit : (p == (t.nodes g).left) ≡ true = ground arith in
        round
        ∙ ap
            (λ b.
              if b
              then (if rb_is_red (t.nodes g).right t
                  then (g, recolor p (t.nodes g).right g t)
                  else turn_left_side ((t.nodes p).right == n) n p g t)
              else (if rb_is_red (t.nodes g).left t
                  then (g, recolor p (t.nodes g).left g t)
                  else turn_right_side ((t.nodes p).left == n) n p g t))
            hit

    pub round_left_red :
        (u : ℕ)
        → (t.nodes g).right ≡ u
        → rb_is_red u t ≡ true
        → insert_round n t ≡ (g, recolor p u g t)
    round_left_red u e r =
        left_round
        ∙ ap
            (λ v.
              if rb_is_red v t
              then (g, recolor p v g t)
              else turn_left_side ((t.nodes p).right == n) n p g t)
            e
        ∙ ap
            (λ b.
              if b then (g, recolor p u g t) else turn_left_side ((t.nodes p).right == n) n p g t)
            r

    pub round_left_black :
        (x : Bool)
        → rb_is_red (t.nodes g).right t ≡ false
        → ((t.nodes p).right == n) ≡ x
        → insert_round n t ≡ turn_left_side x n p g t
    round_left_black x r e =
        left_round
        ∙ ap
            (λ b.
              if b
              then (g, recolor p (t.nodes g).right g t)
              else turn_left_side ((t.nodes p).right == n) n p g t)
            r
        ∙ ap (λ b. turn_left_side b n p g t) e

  module _ (on_right : (t.nodes g).left ≢ p) where
    right_round : insert_round n t ≡ (
        if rb_is_red (t.nodes g).left t
        then (g, recolor p (t.nodes g).left g t)
        else turn_right_side ((t.nodes p).left == n) n p g t)
    right_round =
        let miss : (p == (t.nodes g).left) ≡ false = ground arith in
        round
        ∙ ap
            (λ b.
              if b
              then (if rb_is_red (t.nodes g).right t
                  then (g, recolor p (t.nodes g).right g t)
                  else turn_left_side ((t.nodes p).right == n) n p g t)
              else (if rb_is_red (t.nodes g).left t
                  then (g, recolor p (t.nodes g).left g t)
                  else turn_right_side ((t.nodes p).left == n) n p g t))
            miss

    pub round_right_red :
        (u : ℕ)
        → (t.nodes g).left ≡ u
        → rb_is_red u t ≡ true
        → insert_round n t ≡ (g, recolor p u g t)
    round_right_red u e r =
        right_round
        ∙ ap
            (λ v.
              if rb_is_red v t
              then (g, recolor p v g t)
              else turn_right_side ((t.nodes p).left == n) n p g t)
            e
        ∙ ap
            (λ b.
              if b then (g, recolor p u g t) else turn_right_side ((t.nodes p).left == n) n p g t)
            r

    pub round_right_black :
        (x : Bool)
        → rb_is_red (t.nodes g).left t ≡ false
        → ((t.nodes p).left == n) ≡ x
        → insert_round n t ≡ turn_right_side x n p g t
    round_right_black x r e =
        right_round
        ∙ ap
            (λ b.
              if b
              then (g, recolor p (t.nodes g).left g t)
              else turn_right_side ((t.nodes p).left == n) n p g t)
            r
        ∙ ap (λ b. turn_right_side b n p g t) e

-- the test of the loop
module _ (fuel n : ℕ) (t : RbTree) where
  pub loop_ends : rb_is_red (rb_parent n t) t ≡ false → insert_loop (suc fuel) n t ≡ some t
  unfolding insert_loop
  loop_ends e =
      ap (λ b. if b then insert_loop fuel (insert_round n t).0 (insert_round n t).1 else some t) e

  pub loop_goes :
      (n' : ℕ) (t' : RbTree)
      → rb_is_red (rb_parent n t) t ≡ true
      → insert_round n t ≡ (n', t')
      → insert_loop (suc fuel) n t ≡ insert_loop fuel n' t'
  unfolding insert_loop
  loop_goes n' t' e r =
      ap (λ b. if b then insert_loop fuel (insert_round n t).0 (insert_round n t).1 else some t) e
      ∙ ap (λ x. insert_loop fuel x.0 x.1) r
