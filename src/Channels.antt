-- ===== src/Channels.antt =====
-- Numbers of channels that are handed out in order and are passed between lists.
use mathlib.Core.Logic.{◌∨₁◌}
use mathlib.Core.Logic.Or
use mathlib.Core.List.{
  Perm, Nodup, Mem, mem-cons, Nodup-cons, Nodup-nil, not-mem-nil, perm_append_comm,
}
use mathlib.Core.List.Perm
use native.Mathlib.Decide.{dec_lt}
use native.Mathlib.Bridge.{le_prop}
use native.Mathlib.Nat.{lt_irrefl}
use go_zookeeper.Base.{ℕ, suc, ◌<◌, ◌≡◌, List, [], ◌∷◌, ◌++◌, append_assoc, arith}

-- The channels of a list are all different, and they are those below n, the next one.
pub record AllBelow (chans : List ℕ) (n : ℕ) : Type 0 where
  pub distinct : Nodup chans
  pub below : (a : ℕ) → Mem a chans → a < n
  pub all_stand : (a : ℕ) → a < n → Mem a chans

pub AllBelow-nil : AllBelow [] 0
AllBelow-nil = record {
  distinct = Nodup-nil;
  below = λ a m. absurd (not-mem-nil m);
  all_stand = λ a l. absurd (omega arith);
}

pub AllBelow-perm : {xs ys : List ℕ} {n : ℕ} → Perm ys xs → AllBelow xs n → AllBelow ys n
AllBelow-perm p f = record {
  distinct = Perm.nodup (Perm.symm p) f.distinct;
  below = λ a m. f.below a ((Perm.mem_iff p).0 m);
  all_stand = λ a l. (Perm.mem_iff p).1 (f.all_stand a l);
}

newest : {xs : List ℕ} {n : ℕ} → AllBelow xs n → (a : ℕ) → a < suc n → (a ≡ n) ∨₁ Mem a xs
newest {n = n} f a l = elim (dec_lt a n) [
  | yes p ↦ Or.inr (f.all_stand a p)
  | no p ↦ Or.inl (omega arith)
]

-- The next channel is handed out.
pub AllBelow-cons : {xs : List ℕ} {n : ℕ} → AllBelow xs n → AllBelow (n ∷ xs) (suc n)
AllBelow-cons {n = n} f = record {
  distinct = Nodup-cons.1 (λ m. lt_irrefl n (f.below n m), f.distinct);
  below =
      λ a m. Or.elim le_prop (mem-cons.0 m) (λ e. omega arith) (λ m'. omega (arith, f.below a m'));
  all_stand = λ a l. mem-cons.1 (newest f a l);
}

-- A list in front changes its place with the next one.
pub swap_front : (xs ys zs : List ℕ) → Perm (xs ++ (ys ++ zs)) (ys ++ (xs ++ zs))
swap_front xs ys zs =
    rw (← append_assoc xs ys zs, ← append_assoc ys xs zs)
      (Perm.append_right zs (perm_append_comm xs ys))
