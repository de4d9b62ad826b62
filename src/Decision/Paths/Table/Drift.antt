-- ===== src/Decision/Paths/Table/Drift.antt =====
-- What becomes of the table once the rule of the recorded address has gone from it.
use mathlib.Core.List.{append_assoc, append-nil}
use vyatta_wanloadbalance.Common.{
  ℕ, zero, suc, ◌≡◌, refl, sym, ap, ◌∙◌, true, false, [], ◌∷◌, ◌++◌, Text, text_eq, text_eq_iff,
  is_empty, arith, Bool-cases, replicate, lit, text_key, inl, inr,
}
use vyatta_wanloadbalance.Data.{Health}
use vyatta_wanloadbalance.Decision.Shell.{delete_snat, snat_rule, System, Shell, execute}
use vyatta_wanloadbalance.Decision.Paths.{table_of, update_snat}
use vyatta_wanloadbalance.Decision.Paths.Table.{count, count-append, NatTable}
use vyatta_wanloadbalance.Decision.Paths.Table.Moves.{chain, missed, added}

drop-prefix : (p a b : Text) → text_eq (p ++ a) (p ++ b) ≡ true → text_eq a b ≡ true
drop-prefix [] a b e = e
drop-prefix (c ∷ p) a b e =
    let whole = (text_eq_iff (c ∷ p ++ a) (c ∷ p ++ b)).0 e in
    drop-prefix p a b ((text_eq_iff (p ++ a) (p ++ b)).1 cc)

other_rule :
    (mark a b : Text) → text_eq a b ≡ false → text_eq (snat_rule mark b) (snat_rule mark a) ≡ false
unfolding snat_rule
other_rule mark a b ne = elim (Bool-cases (text_eq (snat_rule mark b) (snat_rule mark a))) [
  | inl same ↦
      let dropped =
        drop-prefix (lit " -j SNAT --to-source ") b a (
          drop-prefix mark _ _ (drop-prefix (lit "WANLOADBALANCE -m connmark --mark ") _ _ same)) in
      let equal = (text_eq_iff a b).1 (sym ((text_eq_iff b a).0 dropped)) in cc (ne, equal)
  | inr other ↦ other
]

module _ (sys : System) where
  -- So many calls of `update_snat` in a row, which read the same address.
  unfoldable pub updates : ℕ → Health → Text → Shell sys → Health × Shell sys
  updates zero h addr s = (h, s)
  updates (suc n) h addr s = let (h', s') = update_snat sys h addr s in updates n h' addr s'

module _ (sys : System) (nat : NatTable sys) (h : Health) (addr : Text)
    (old : is_empty h.address ≡ false) (come : is_empty addr ≡ false)
    (moved : text_eq addr h.address ≡ false) where
  one_more :
      (s : Shell sys)
      → count (snat_rule (table_of h) h.address) (chain sys nat s) ≡ 0
      → let (h', s') = update_snat sys h addr s in
        (h' ≡ h) × (chain sys nat s' ≡ chain sys nat s ++ snat_rule (table_of h) addr ∷ [])
  unfolding update_snat
  one_more s gone =
      let (err, after) = missed sys nat (table_of h) h.address s gone in
      let s1 = (execute sys (delete_snat (table_of h) h.address) false s).2 in
      let (ok, after2) = added sys nat (table_of h) addr s1 come in
      rw (update_snat, moved, old, come, err, ok)
        (refl, after2 ∙ ap (λ t. t ++ snat_rule (table_of h) addr ∷ []) after)

  -- On a system whose iptables keeps a table of rules: if an interface has a recorded address whose rule
  -- is not in the table, and a new address, then every call of `update_snat` adds the rule of the new
  -- address once more, and the recorded address stays the old one for ever.
  pub update_snat_piles_up :
      (n : ℕ) (s : Shell sys)
      → count (snat_rule (table_of h) h.address) (chain sys nat s) ≡ 0
      → let (h', s') = updates sys n h addr s in
        (h' ≡ h) × (chain sys nat s' ≡ chain sys nat s ++ replicate n (snat_rule (table_of h) addr))
  unfolding updates
  update_snat_piles_up zero s gone = (refl, sym (append-nil (chain sys nat s)))
  update_snat_piles_up (suc n) s gone =
      let (same, more) = one_more s gone in
      let s1 = (update_snat sys h addr s).1 in
      let still : count (snat_rule (table_of h) h.address) (chain sys nat s1) ≡ 0 =
        ap (count (snat_rule (table_of h) h.address)) more
        ∙ count-append (snat_rule (table_of h) h.address) (chain sys nat s) _
        ∙ rw (other_rule (table_of h) addr h.address moved) (omega (gone, arith)) in
      let (same_n, more_n) = update_snat_piles_up n s1 still in
      rw (updates, same)
        (
          same_n,
          more_n
              ∙ ap (λ t. t ++ replicate n (snat_rule (table_of h) addr)) more
              ∙ append_assoc (chain sys nat s) (snat_rule (table_of h) addr ∷ []) _,
        )
