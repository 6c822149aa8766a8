-- ===== src/Rbtree/Repair.antt =====
-- What `rb_erase_color` of rbtree.c makes of a tree, as a function on the tree alone: the tree `x` at a
-- place has one black node too few on each way down.
use fru1t_os.Prelude.{
  ℕ, ◌≡◌, refl, ◌∙◌, Bool, true, false, not, ◌&&◌, List, if◌then◌else◌, append_assoc,
}
use fru1t_os.Rbtree.{Color, red, black, is_red}
use fru1t_os.Rbtree.Shape.{Shape, leaf, branch, in_order, Context, top, in_left, in_right, plug}
use fru1t_os.Rbtree.Place.{in_order-plug}
use fru1t_os.Rbtree.Settle.{tone, blacken, in_order-blacken}

abbrev pub redden : Shape → Shape
redden leaf = leaf
redden (branch l p c r) = branch l p red r

-- no child is red
abbrev pub plain : Shape → Bool
plain leaf = true
plain (branch l p c r) = not (is_red (tone l)) && not (is_red (tone r))

-- a black node for `x`, on the left of `p`, from a sibling `s` with a red child: the near one
abbrev pub near_left : (x : Shape) (p : ℕ) (c : Color) (near : Shape) (s : ℕ) (far : Shape) → Shape
near_left x p c leaf s far = branch x p c (branch leaf s black far)
near_left x p c (branch l n d r) s far = branch (branch x p black l) n c (branch r s black far)

abbrev pub borrow_left : (x : Shape) (p : ℕ) (c : Color) (s : Shape) → Shape
borrow_left x p c leaf = branch x p c leaf
borrow_left x p c (branch l s d r) =
    if is_red (tone r) then branch (branch x p black l) s c (blacken r) else near_left x p c l s r

-- the sibling is red
abbrev pub turn_up_left : (k : Context) (x : Shape) (p : ℕ) (s : Shape) → Shape
turn_up_left k x p leaf = plug k (branch x p black leaf)
turn_up_left k x p (branch a q d b) =
    if plain a
    then plug (in_left k q black b) (branch x p black (redden a))
    else blacken (plug (in_left k q black b) (borrow_left x p red a))

-- a black node for `x`, on the right of `p`, from a sibling `s` with a red child: the near one
abbrev pub near_right : (x : Shape) (p : ℕ) (c : Color) (near : Shape) (s : ℕ) (far : Shape) → Shape
near_right x p c leaf s far = branch (branch far s black leaf) p c x
near_right x p c (branch l n d r) s far = branch (branch far s black l) n c (branch r p black x)

abbrev pub borrow_right : (x : Shape) (p : ℕ) (c : Color) (s : Shape) → Shape
borrow_right x p c leaf = branch leaf p c x
borrow_right x p c (branch l s d r) =
    if is_red (tone l) then branch (blacken l) s c (branch r p black x) else near_right x p c r s l

-- the sibling is red
abbrev pub turn_up_right : (k : Context) (x : Shape) (p : ℕ) (s : Shape) → Shape
turn_up_right k x p leaf = plug k (branch leaf p black x)
turn_up_right k x p (branch a q d b) =
    if plain b
    then plug (in_right k a q black) (branch (redden b) p black x)
    else blacken (plug (in_right k a q black) (borrow_right x p red b))

unfoldable pub repair : Context → Shape → Shape
repair top x = blacken x
repair (in_left k p c s) x =
    let up = repair k (branch x p c (redden s)) in
    if is_red (tone x)
    then plug (in_left k p c s) (blacken x)
    else if is_red (tone s)
    then turn_up_left k x p s
    else if plain s
    then up
    else blacken (plug k (borrow_left x p c s))
repair (in_right k s p c) x =
    let up = repair k (branch (redden s) p c x) in
    if is_red (tone x)
    then plug (in_right k s p c) (blacken x)
    else if is_red (tone s)
    then turn_up_right k x p s
    else if plain s
    then up
    else blacken (plug k (borrow_right x p c s))

in_order-redden : (s : Shape) → in_order (redden s) ≡ in_order s
in_order-redden leaf = refl
in_order-redden (branch l p c r) = refl

in_order-pick :
    (b : Bool) (s t : Shape) (ps : List ℕ)
    → in_order s ≡ ps
    → in_order t ≡ ps
    → in_order (if b then s else t) ≡ ps
in_order-pick true s t ps e f = e
in_order-pick false s t ps e f = f

in_order-blacken-plug :
    (k : Context) (s s' : Shape)
    → in_order s ≡ in_order s'
    → in_order (blacken (plug k s)) ≡ in_order (plug k s')
in_order-blacken-plug k s s' e = in_order-blacken (plug k s) ∙ in_order-plug k s s' e

in_order-near_left :
    (x : Shape) (p : ℕ) (c d : Color) (near : Shape) (s : ℕ) (far : Shape)
    → in_order (near_left x p c near s far) ≡ in_order (branch x p d (branch near s d far))
in_order-near_left x p c d leaf s far = refl
in_order-near_left x p c d (branch l n e r) s far = simp append_assoc

in_order-borrow_left :
    (x : Shape) (p : ℕ) (c d : Color) (s : Shape)
    → in_order (borrow_left x p c s) ≡ in_order (branch x p d s)
in_order-borrow_left x p c d leaf = refl
in_order-borrow_left x p c d (branch l s e r) =
    in_order-pick (is_red (tone r)) (branch (branch x p black l) s c (blacken r))
      (near_left x p c l s r) _ (simp (append_assoc, in_order-blacken r))
      (in_order-near_left x p c d l s r)

in_order-turn_up_left :
    (k : Context) (x : Shape) (p : ℕ) (c : Color) (s : Shape)
    → in_order (turn_up_left k x p s) ≡ in_order (plug k (branch x p c s))
in_order-turn_up_left k x p c leaf =
    in_order-plug k (branch x p black leaf) (branch x p c leaf) refl
in_order-turn_up_left k x p c (branch a q d b) =
    let old = branch x p c (branch a q d b) in
    let up = branch (branch x p black (redden a)) q black b in
    let turned = branch (borrow_left x p red a) q black b in
    let e : in_order up ≡ in_order old = simp (append_assoc, in_order-redden a) in
    let f : in_order turned ≡ in_order old =
      simp (in_order-borrow_left x p red red a, append_assoc) in
    in_order-pick (plain a) (plug k up) (blacken (plug k turned)) _ (in_order-plug k up old e)
      (in_order-blacken-plug k turned old f)

in_order-near_right :
    (x : Shape) (p : ℕ) (c d : Color) (near : Shape) (s : ℕ) (far : Shape)
    → in_order (near_right x p c near s far) ≡ in_order (branch (branch far s d near) p d x)
in_order-near_right x p c d leaf s far = refl
in_order-near_right x p c d (branch l n e r) s far = simp append_assoc

in_order-borrow_right :
    (x : Shape) (p : ℕ) (c d : Color) (s : Shape)
    → in_order (borrow_right x p c s) ≡ in_order (branch s p d x)
in_order-borrow_right x p c d leaf = refl
in_order-borrow_right x p c d (branch l s e r) =
    in_order-pick (is_red (tone l)) (branch (blacken l) s c (branch r p black x))
      (near_right x p c r s l) _ (simp (append_assoc, in_order-blacken l))
      (in_order-near_right x p c d r s l)

in_order-turn_up_right :
    (k : Context) (x : Shape) (p : ℕ) (c : Color) (s : Shape)
    → in_order (turn_up_right k x p s) ≡ in_order (plug k (branch s p c x))
in_order-turn_up_right k x p c leaf =
    in_order-plug k (branch leaf p black x) (branch leaf p c x) refl
in_order-turn_up_right k x p c (branch a q d b) =
    let old = branch (branch a q d b) p c x in
    let up = branch a q black (branch (redden b) p black x) in
    let turned = branch a q black (borrow_right x p red b) in
    let e : in_order up ≡ in_order old = simp (append_assoc, in_order-redden b) in
    let f : in_order turned ≡ in_order old =
      simp (in_order-borrow_right x p red red b, append_assoc) in
    in_order-pick (plain b) (plug k up) (blacken (plug k turned)) _ (in_order-plug k up old e)
      (in_order-blacken-plug k turned old f)

-- the nodes stand in the same order
pub in_order-repair : (k : Context) (x : Shape) → in_order (repair k x) ≡ in_order (plug k x)
unfolding repair
in_order-repair top x = in_order-blacken x
in_order-repair (in_left k p c s) x =
    let old = branch x p c s in
    let up = branch x p c (redden s) in
    let e : in_order up ≡ in_order old = simp (in_order-redden s) in
    in_order-pick (is_red (tone x)) (plug (in_left k p c s) (blacken x)) _ _
      (in_order-plug (in_left k p c s) (blacken x) x (in_order-blacken x))
      (in_order-pick (is_red (tone s)) (turn_up_left k x p s) _ _ (in_order-turn_up_left k x p c s)
        (in_order-pick (plain s) (repair k up) (blacken (plug k (borrow_left x p c s))) _
          (in_order-repair k up ∙ in_order-plug k up old e)
          (in_order-blacken-plug k (borrow_left x p c s) old (in_order-borrow_left x p c c s))))
in_order-repair (in_right k s p c) x =
    let old = branch s p c x in
    let up = branch (redden s) p c x in
    let e : in_order up ≡ in_order old = simp (in_order-redden s) in
    in_order-pick (is_red (tone x)) (plug (in_right k s p c) (blacken x)) _ _
      (in_order-plug (in_right k s p c) (blacken x) x (in_order-blacken x))
      (in_order-pick (is_red (tone s)) (turn_up_right k x p s) _ _
        (in_order-turn_up_right k x p c s)
        (in_order-pick (plain s) (repair k up) (blacken (plug k (borrow_right x p c s))) _
          (in_order-repair k up ∙ in_order-plug k up old e)
          (in_order-blacken-plug k (borrow_right x p c s) old (in_order-borrow_right x p c c s))))
