-- ===== src/Dict/Keyed.antt =====
-- Maps whose values determine their keys stay so under insertion and deletion.
use parchment.Prelude.{String, Bool, ◌≡◌, sym, ◌∙◌, arith, eq_iff, String-cases, inl, inr}
use parchment.Dict.{
  Dict, insert, remove, remove_where, IsDistinct, IsKeyed, lookup-insert, lookup-remove,
  lookup-insert_ne, lookup-remove_where,
}

module _ {V : Type 0} (key : V → String) where
  pub IsKeyed-insert :
      (d : Dict V) (k : String) (v : V) → IsKeyed key d → key v ≡ k → IsKeyed key (insert d k v)
  IsKeyed-insert d k v h e j w p = elim (String-cases k j) [
    | inl (q, _) ↦ ground (arith, lookup-insert d k j v, eq_iff k j)
    | inr (n, t) ↦ h j w (sym (lookup-insert_ne d k j v n) ∙ p)
  ]

  pub IsKeyed-remove : (d : Dict V) (k : String) → IsKeyed key d → IsKeyed key (remove d k)
  IsKeyed-remove d k h j w p = h j w (ground (arith, lookup-remove d k j))

  pub IsKeyed-remove_where :
      (p : V → Bool) (d : Dict V) → IsDistinct d → IsKeyed key d → IsKeyed key (remove_where p d)
  IsKeyed-remove_where p d dist h j w q = h j w (ground (arith, lookup-remove_where p d j dist))
