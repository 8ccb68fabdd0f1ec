-- ===== src/Client/Uncles.antt =====
-- `uncles` of client/service/src/client/client.rs.
use sub_archive.Prelude.{
  ℕ, zero, suc, List, [], ◌∷◌, ◌++◌, Option, none, some, Result, ok, err, ◌>>=◌, nat_beq,
  if◌then◌else◌,
}
use sub_archive.Chain.{Hash, Header, hash, ChainError, unknown_block}
use sub_archive.Client.Backend.{Blockchain}

-- `children.into_iter().filter(|h| h != &current_hash)`
abbrev pub others : Hash → List Hash → List Hash
others current_hash [] = []
others current_hash (h ∷ rest) =
    let rest' = others current_hash rest in if nat_beq h current_hash then rest' else h ∷ rest'

module _ (chain : Blockchain) where
  abbrev pub found : Option Header → Result ChainError Header
  found none = err unknown_block
  found (some header) = ok header

  unfoldable pub load_header : Hash → Result ChainError Header
  load_header id = chain.header (hash id) >>= found

  -- The generations that are left, from the ancestor whose child is `current_hash`.
  unfoldable pub collect_uncles :
      ℕ → Hash → Hash → Header → List Hash → Result ChainError (List Hash)
  collect_uncles zero current_hash ancestor_hash ancestor uncles = ok uncles
  collect_uncles (suc generations) current_hash ancestor_hash ancestor uncles = do
    children ← chain.children ancestor_hash
    if nat_beq chain.info.genesis_hash ancestor_hash
        then ok (uncles ++ others current_hash children)
        else (do
          next ← load_header ancestor.parent_hash
          collect_uncles generations ancestor_hash ancestor.parent_hash next
              (uncles ++ others current_hash children))

  unfoldable pub uncles : Hash → ℕ → Result ChainError (List Hash)
  uncles target_hash max_generation =
      if nat_beq chain.info.genesis_hash target_hash then ok [] else (do
        current ← load_header target_hash
        ancestor ← load_header current.parent_hash
        collect_uncles max_generation target_hash current.parent_hash ancestor [])
