-- ===== src/Protocol/Wikilink/Entries.antt =====
-- The maps of links as sets of entries, and the keys under which links and edges stand.
use parchment.Prelude.{
  String, true, false, none, some, ◌≡◌, ◌↔◌, arith, ◌==◌, eq_iff, any_of, contains_rune, any_of→mem,
  mem→any_of,
}
use parchment.Prelude.Scanning.{split_at_char}
use parchment.Dict.{Dict, lookup, values, IsDistinct, mem-values}
use parchment.Dict.Entries.{mem-entries}
use parchment.Store.Edges.Key.{NoBar}
use parchment.Protocol.Wikilink.{ResolvedLink, nul, link_key}
use parchment.Protocol.Wikilink.Links.{entry, lacks}

-- a name without the characters that the keys of edges and links are joined with
abbrev pub IsPlain : String → Type 0
IsPlain s = NoBar s × (contains_rune s 0 ≡ false)

-- `range` visits each entry of a map once
pub record VisitsAll (visit : Dict ResolvedLink → Dict ResolvedLink) : Type 0 where
  pub same_entries : (d : Dict ResolvedLink) (k : String) → lookup (visit d) k ≡ lookup d k
  pub once : (d : Dict ResolvedLink) → IsDistinct d → IsDistinct (visit d)

pub link_key_inj :
    (r t r' t' : String)
    → IsPlain r
    → IsPlain r'
    → link_key r t ≡ link_key r' t'
    → (r ≡ r') × (t ≡ t')
link_key_inj r t r' t' p p' e = split_at_char nul r r' t t' p.1 p'.1 e

-- the entry of some link of the map
pub any_entry :
    (id : String) (d : Dict ResolvedLink) (k : String)
    → IsDistinct d
    → (any_of (λ l. entry id l == k) (values d) ≡ true)
      ↔ ((key : String) × (l : ResolvedLink) × (lookup d key ≡ some l) × (entry id l ≡ k))
any_entry id d k h = (
  λ e.
      let (l, i, q) = any_of→mem (λ l. entry id l == k) (values d) e in
      let (key, s) = (mem-values d l h).0 i in (key, l, s, (eq_iff (entry id l) k).0 q),
  λ (key, l, s, q).
      mem→any_of (λ l. entry id l == k) (values d) l ((mem-values d l h).1 (key, s))
        ((eq_iff (entry id l) k).1 q),
)

pub any_lacks :
    (id : String) (existing d : Dict ResolvedLink) (k : String)
    → IsDistinct d
    → (any_of (lacks id existing k) d ≡ true) ↔ (
        (key : String) × (l : ResolvedLink) × (lookup d key ≡ some l)
        × (lookup existing key ≡ none)
        × (entry id l ≡ k))
any_lacks id existing d k h = (
  λ e.
      let (x, i, q) = any_of→mem (lacks id existing k) d e in
      (
        x.0,
        x.1,
        (mem-entries d x.0 x.1 h).0 i,
        ground (arith, q),
        ground (arith, q, eq_iff (entry id x.1) k),
      ),
  λ (key, l, s, n, q).
      mem→any_of (lacks id existing k) d (key, l) ((mem-entries d key l h).1 s)
        (ground (arith, n, eq_iff (entry id l) k)),
)
