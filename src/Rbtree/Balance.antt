-- ===== src/Rbtree/Balance.antt =====
-- The colours of a red-black tree: no red node has a red child, all ways down pass as many black nodes,
-- and what `rb_insert_color` makes of a tree keeps both.
use fru1t_os.Prelude.{ℕ, zero, suc, ◌≡◌, refl, true, false}
use fru1t_os.Rbtree.{Color, red, black, is_red}
use fru1t_os.Rbtree.Shape.{Shape, leaf, branch, Context, top, in_left, in_right, plug}
use fru1t_os.Rbtree.Settle.{tone, blacken}

-- next to a red node stands a black one
abbrev pub BlackIf : Color → Color → Type 0
BlackIf red d = d ≡ black
BlackIf black d = Unit

-- no red node has a red child
abbrev pub IsCalm : Shape → Type 0
IsCalm leaf = Unit
IsCalm (branch l p c r) = BlackIf c (tone l) × BlackIf c (tone r) × IsCalm l × IsCalm r

-- each way down passes `h` black nodes
abbrev pub IsEven : ℕ → Shape → Type 0
IsEven h leaf = h ≡ 0
IsEven h (branch l p red r) = IsEven h l × IsEven h r
IsEven zero (branch l p black r) = ⊥
IsEven (suc h) (branch l p black r) = IsEven h l × IsEven h r

-- a red-black tree
pub record IsRedBlack (s : Shape) : Type 0 where
  pub root : tone s ≡ black
  pub calm : IsCalm s
  pub even : (h : ℕ) × IsEven h s

-- the same of what stands around a place

abbrev pub tone_above : Context → Color
tone_above top = black
tone_above (in_left k p c r) = c
tone_above (in_right k l p c) = c

abbrev pub CalmIn : Context → Type 0
CalmIn top = Unit
CalmIn (in_left k p c r) = BlackIf c (tone r) × IsCalm r × BlackIf c (tone_above k) × CalmIn k
CalmIn (in_right k l p c) = BlackIf c (tone l) × IsCalm l × BlackIf c (tone_above k) × CalmIn k

abbrev pub EvenIn : Context → ℕ → Type 0
EvenIn top h = Unit
EvenIn (in_left k p red r) h = IsEven h r × EvenIn k h
EvenIn (in_left k p black r) h = IsEven h r × EvenIn k (suc h)
EvenIn (in_right k l p red) h = IsEven h l × EvenIn k h
EvenIn (in_right k l p black) h = IsEven h l × EvenIn k (suc h)

-- the colour of the root, where it stands around the place
abbrev pub root_or : Color → Context → Color
root_or c top = c
root_or c (in_left k p d r) = root_or d k
root_or c (in_right k l p d) = root_or d k

abbrev pub IsRooted : Context → Type 0
IsRooted k = root_or black k ≡ black

pub black_ne_red : red ≡ black → ⊥
black_ne_red e = cc

pub black_beside : (c : Color) → BlackIf c black
black_beside red = refl
black_beside black = tt

pub BlackIf-sym : (c d : Color) → BlackIf c d → BlackIf d c
BlackIf-sym red red e = e
BlackIf-sym red black e = tt
BlackIf-sym black red e = refl
BlackIf-sym black black e = tt

pub plug-IsCalm :
    (k : Context) (s : Shape)
    → CalmIn k
    → IsCalm s
    → BlackIf (tone_above k) (tone s)
    → IsCalm (plug k s)
plug-IsCalm top s around calm join = calm
plug-IsCalm (in_left k p c r) s (beside, right, up, around) calm join =
    plug-IsCalm k (branch s p c r) around (join, beside, calm, right)
      (BlackIf-sym c (tone_above k) up)
plug-IsCalm (in_right k l p c) s (beside, left, up, around) calm join =
    plug-IsCalm k (branch l p c s) around (beside, join, left, calm)
      (BlackIf-sym c (tone_above k) up)

pub plug-IsEven :
    (k : Context) (s : Shape) (h : ℕ) → EvenIn k h → IsEven h s → (g : ℕ) × IsEven g (plug k s)
plug-IsEven top s h around even = (h, even)
plug-IsEven (in_left k p red r) s h (right, around) even =
    plug-IsEven k (branch s p red r) h around (even, right)
plug-IsEven (in_left k p black r) s h (right, around) even =
    plug-IsEven k (branch s p black r) (suc h) around (even, right)
plug-IsEven (in_right k l p red) s h (left, around) even =
    plug-IsEven k (branch l p red s) h around (left, even)
plug-IsEven (in_right k l p black) s h (left, around) even =
    plug-IsEven k (branch l p black s) (suc h) around (left, even)

pub tone-blacken : (s : Shape) → tone (blacken s) ≡ black
tone-blacken leaf = refl
tone-blacken (branch l p c r) = refl

pub blacken-IsCalm : (s : Shape) → IsCalm s → IsCalm (blacken s)
blacken-IsCalm leaf calm = tt
blacken-IsCalm (branch l p c r) (x, y, left, right) = (tt, tt, left, right)

pub red_blacken-IsEven :
    (s : Shape) (h : ℕ) → is_red (tone s) ≡ true → IsEven h s → IsEven (suc h) (blacken s)
red_blacken-IsEven leaf h t even = cc
red_blacken-IsEven (branch l p red r) h t even = even
red_blacken-IsEven (branch l p black r) h t even = cc

pub blacken-IsEven : (s : Shape) (h : ℕ) → IsEven h s → (g : ℕ) × IsEven g (blacken s)
blacken-IsEven leaf h even = (h, even)
blacken-IsEven (branch l p red r) h even = (suc h, even)
blacken-IsEven (branch l p black r) zero even = absurd even
blacken-IsEven (branch l p black r) (suc h) even = (suc h, even)

pub not_red : (s : Shape) → is_red (tone s) ≡ false → tone s ≡ black
not_red leaf t = refl
not_red (branch l p red r) t = cc
not_red (branch l p black r) t = refl

-- a red node that only its parent may disturb
pub record IsNode (h : ℕ) (a b : Shape) : Type 0 where
  pub tones : (tone a ≡ black) × (tone b ≡ black)
  pub calm : IsCalm a × IsCalm b
  pub even : IsEven h a × IsEven h b

abbrev pub Balanced : Shape → Type 0
Balanced s = IsCalm s × ((h : ℕ) × IsEven h s)

pub plug-Balanced :
    (k : Context) (s : Shape) (h : ℕ)
    → CalmIn k
    → EvenIn k h
    → IsCalm s
    → IsEven h s
    → tone s ≡ black
    → Balanced (plug k s)
plug-Balanced k s h around even_around calm even t = (
  plug-IsCalm k s around calm (rw t (black_beside (tone_above k))),
  plug-IsEven k s h even_around even,
)
