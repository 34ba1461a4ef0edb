-- ===== src/Prelude/Interleavings.antt =====
-- Two goroutines whose actions come in any order, and what they do to one part of the state.
use mathlib.Core.Path.{◌≡◌, refl, ap, ◌∙◌}
use mathlib.Core.Bool.{Bool, true, false}
use Prim.Native.Nat.{◌+◌}
use native.Mathlib.Omega.{arith}
use icingadb.Prelude.Lists.{count, count-append}
use mathlib.Core.List.{List, [], ◌∷◌, ◌++◌}

-- The actions of two goroutines in the order of a schedule.
abbrev pub interleave {ℓ} : {A : Type ℓ} → List Bool → List A → List A → List A
interleave [] xs ys = xs ++ ys
interleave (true ∷ sched) [] ys = ys
interleave (true ∷ sched) (x ∷ xs) ys = x ∷ interleave sched xs ys
interleave (false ∷ sched) xs [] = xs
interleave (false ∷ sched) xs (y ∷ ys) = y ∷ interleave sched xs ys

pub count-interleave {ℓ} :
    {A : Type ℓ} (q : A → Bool) (sched : List Bool) (xs ys : List A)
    → count q (interleave sched xs ys) ≡ count q xs + count q ys
count-interleave q [] xs ys = count-append q xs ys
count-interleave q (true ∷ sched) [] ys = omega arith
count-interleave q (true ∷ sched) (x ∷ xs) ys = omega (arith, count-interleave q sched xs ys)
count-interleave q (false ∷ sched) xs [] = omega arith
count-interleave q (false ∷ sched) xs (y ∷ ys) = omega (arith, count-interleave q sched xs ys)

module _ {κ} {A : Type 0} {V : Type κ} (effect : A → V → V) where
  abbrev pub effects : List A → V → V
  effects [] v = v
  effects (a ∷ acts) v = effects acts (effect a v)

  pub effects-append : (xs ys : List A) (v : V) → effects (xs ++ ys) v ≡ effects ys (effects xs v)
  effects-append [] ys v = refl
  effects-append (x ∷ xs) ys v = effects-append xs ys (effect x v)

  -- An action that changes nothing of it.
  abbrev pub IsNeutral : A → Type κ
  IsNeutral a = (v : V) → effect a v ≡ v

  abbrev pub AllNeutral : List A → Type κ
  AllNeutral [] = Unit
  AllNeutral (a ∷ acts) = IsNeutral a × AllNeutral acts

  pub effects-neutral : (acts : List A) (v : V) → AllNeutral acts → effects acts v ≡ v
  effects-neutral [] v neutral = refl
  effects-neutral (a ∷ acts) v neutral =
      ap (effects acts) (neutral.0 v) ∙ effects-neutral acts v neutral.1

  -- One goroutine changes nothing of it: what counts is the other one.
  pub effects-first :
      (sched : List Bool) (xs ys : List A) (v : V)
      → AllNeutral ys
      → effects (interleave sched xs ys) v ≡ effects xs v
  effects-first [] [] ys v neutral = effects-neutral ys v neutral
  effects-first [] (x ∷ xs) ys v neutral = effects-first [] xs ys (effect x v) neutral
  effects-first (true ∷ sched) [] ys v neutral = effects-neutral ys v neutral
  effects-first (true ∷ sched) (x ∷ xs) ys v neutral =
      effects-first sched xs ys (effect x v) neutral
  effects-first (false ∷ sched) xs [] v neutral = refl
  effects-first (false ∷ sched) xs (y ∷ ys) v neutral =
      effects-first sched xs ys (effect y v) neutral.1 ∙ ap (effects xs) (neutral.0 v)

  pub effects-second :
      (sched : List Bool) (xs ys : List A) (v : V)
      → AllNeutral xs
      → effects (interleave sched xs ys) v ≡ effects ys v
  effects-second [] [] ys v neutral = refl
  effects-second [] (x ∷ xs) ys v neutral =
      effects-second [] xs ys (effect x v) neutral.1 ∙ ap (effects ys) (neutral.0 v)
  effects-second (true ∷ sched) [] ys v neutral = refl
  effects-second (true ∷ sched) (x ∷ xs) ys v neutral =
      effects-second sched xs ys (effect x v) neutral.1 ∙ ap (effects ys) (neutral.0 v)
  effects-second (false ∷ sched) xs [] v neutral = effects-neutral xs v neutral
  effects-second (false ∷ sched) xs (y ∷ ys) v neutral =
      effects-second sched xs ys (effect y v) neutral

  pub interleave-AllNeutral :
      (sched : List Bool) (xs ys : List A)
      → AllNeutral xs
      → AllNeutral ys
      → AllNeutral (interleave sched xs ys)
  interleave-AllNeutral [] [] ys n n' = n'
  interleave-AllNeutral [] (x ∷ xs) ys n n' = (n.0, interleave-AllNeutral [] xs ys n.1 n')
  interleave-AllNeutral (true ∷ sched) [] ys n n' = n'
  interleave-AllNeutral (true ∷ sched) (x ∷ xs) ys n n' =
      (n.0, interleave-AllNeutral sched xs ys n.1 n')
  interleave-AllNeutral (false ∷ sched) xs [] n n' = n
  interleave-AllNeutral (false ∷ sched) xs (y ∷ ys) n n' =
      (n'.0, interleave-AllNeutral sched xs ys n n'.1)
