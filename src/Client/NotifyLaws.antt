-- ===== src/Client/NotifyLaws.antt =====
-- What the listeners of client/service/src/notifies.rs receive, and when `to_notify` leaves some out.
use sub_archive.Prelude.{
  ℕ, zero, suc, ◌-◌, List, [], ◌∷◌, ◌++◌, some, ok, returned, ◌≡◌, refl, arith, if◌then◌else◌,
  length, drop, leb, All, map, ap,
}
use mathlib.Core.List.{append_assoc, append-nil}
use sub_archive.Chain.{Hash, Header, hash}
use sub_archive.Client.Backend.{Blockchain}
use sub_archive.Client.Finality.{to_notify}
use sub_archive.Client.Notifies.{
  Sink, FinalityNotification, FinalitySinks, retain_open, send_all, notify_each, notify_finalized,
}

-- Every open sink receives the notifications in order; a closed one is dropped.
unfoldable pub deliver : {N : Type 0} → List N → List (Sink N) → List (Sink N)
deliver ns [] = []
deliver ns (sink ∷ sinks) =
    let rest = deliver ns sinks in
    if sink.is_closed then rest else record sink { received = sink.received ++ ns } ∷ rest

module _ {N : Type 0} where
  deliver_none : (sinks : List (Sink N)) → deliver [] sinks ≡ retain_open sinks
  unfolding deliver retain_open
  deliver_none [] = refl
  deliver_none (sink ∷ sinks) = ground (arith, append-nil sink.received, deliver_none sinks)

  deliver-send_all :
      (n : N) (ns : List N) (sinks : List (Sink N))
      → deliver ns (send_all n sinks) ≡ deliver (n ∷ ns) sinks
  unfolding deliver send_all
  deliver-send_all n ns [] = refl
  deliver-send_all n ns (sink ∷ sinks) =
      ground (arith, append_assoc sink.received (n ∷ []) ns, deliver-send_all n ns sinks)

abbrev pub notification : (Hash → Header) → Hash → FinalityNotification
notification headers h = record { block_hash = h; header = headers h }

send_all_lem :
    {N : Type 0} (n : N) (sinks : List (Sink N)) → send_all n sinks ≡ deliver (n ∷ []) sinks
unfolding send_all deliver
send_all_lem n [] = refl
send_all_lem n (sink ∷ sinks) = ground (arith, send_all_lem n sinks)

notify_each-delivers :
    (chain : Blockchain) (headers : Hash → Header) (h : Hash) (rest : List Hash)
    (sinks : FinalitySinks)
    → All (λ h. chain.header (hash h) ≡ ok (some (headers h))) (h ∷ rest)
    → notify_each chain (h ∷ rest) sinks
      ≡ (returned (ok tt), deliver (map (notification headers) (h ∷ rest)) sinks)
unfolding notify_each
notify_each-delivers chain headers h [] sinks a =
    ground (arith, a.0, send_all_lem (notification headers h) sinks)
notify_each-delivers chain headers h (k ∷ rest) sinks a = ground (
  arith,
  a.0,
  notify_each-delivers chain headers k rest (send_all (notification headers h) sinks) a.1,
  deliver-send_all (notification headers h) (map (notification headers) (k ∷ rest)) sinks,
)

-- Where the blockchain has the headers, every open listener receives one notification for each
-- finalized block, in order and after what it had, and the closed ones are dropped.
pub notify_finalized-delivers :
    (chain : Blockchain) (headers : Hash → Header) (hs : List Hash) (sinks : FinalitySinks)
    → All (λ h. chain.header (hash h) ≡ ok (some (headers h))) hs
    → notify_finalized chain hs sinks
      ≡ (returned (ok tt), deliver (map (notification headers) hs) sinks)
unfolding notify_finalized
notify_finalized-delivers chain headers [] sinks a = ground (arith, deliver_none sinks)
notify_finalized-delivers chain headers (h ∷ rest) sinks a =
    notify_each-delivers chain headers h rest sinks a

length-drop_lem : (n : ℕ) (xs : List Hash) → length (drop n xs) ≡ length xs - n
length-drop_lem zero xs = omega arith
length-drop_lem (suc n) [] = omega arith
length-drop_lem (suc n) (x ∷ xs) = omega (arith, length-drop_lem n xs)

dropped : (n : ℕ) (xs : List Hash) → (older : List Hash) × (older ++ drop n xs ≡ xs)
dropped zero xs = ([], refl)
dropped (suc n) [] = ([], refl)
dropped (suc n) (x ∷ xs) = let (older, e) = dropped n xs in (x ∷ older, ap (λ l. x ∷ l) e)

-- The finalized blocks that are told of are the newest of those enacted: all of them up to 256, and
-- the last 256 of more.
pub to_notify-IsNewest :
    (enacted : List Hash)
    → ((older : List Hash) × (older ++ to_notify enacted ≡ enacted))
      × (length (to_notify enacted) ≡ (if leb (length enacted) 256 then length enacted else 256))
unfolding to_notify
to_notify-IsNewest enacted = (
  dropped _ enacted,
  ground (
    arith,
    length-drop_lem (length enacted - (if leb (length enacted) 256 then length enacted else 256))
        enacted,
  ),
)
