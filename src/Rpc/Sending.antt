-- ===== src/Rpc/Sending.antt =====
-- Whom a server's own call reaches, and what arrives there.
use godot_godaemon_multiplay.Prelude.{
  ℕ, ◌<◌, ◌≡◌, ◌≢◌, refl, sym, ◌∙◌, subst, ap, inl, inr, Bool, true, false, not, ◌&&◌, some, List,
  [], ◌∷◌, ◌++◌, map, append_assoc, arith, ◌==◌, ==_iff, if◌then◌else◌, Bool-cases, minus_one64,
}
use godot_godaemon_multiplay.Engine.{Engine}
use godot_godaemon_multiplay.Repository.{get_id}
use godot_godaemon_multiplay.Rpc.{
  Api, is_client, is_server, is_positive64, is_negative64, negate64, compress_rpc, decompress_rpc,
}
use godot_godaemon_multiplay.Rpc.Layout.{compress_rpc_some}
use godot_godaemon_multiplay.Rpc.RoundTrip.{DecodesArgs, decompress_rpc-compress_rpc}
use godot_godaemon_multiplay.Rpc.Routes.{those}
use godot_godaemon_multiplay.Rpc.Outbound.{
  Outgoing, Command, ok, is_ok, is_empty, erase_first, keep_receivers, named_targets, target_peers,
  outbound_error, send_all, outbound_rpc,
}

-- No peer stands twice in a list.
abbrev pub NotIn : ℕ → List ℕ → Type 0
NotIn p [] = Unit {0}
NotIn p (q ∷ rest) = (p ≢ q) × NotIn p rest

abbrev pub Distinct : List ℕ → Type 0
Distinct [] = Unit {0}
Distinct (p ∷ rest) = NotIn p rest × Distinct rest

NotIn-erase_first : (p n : ℕ) (xs : List ℕ) → NotIn p xs → NotIn p (erase_first n xs)
unfolding erase_first
NotIn-erase_first p n [] h = tt
NotIn-erase_first p n (q ∷ rest) (ne, h) = elim (Bool-cases (q == n)) [
  | inl same ↦ rw same h
  | inr other ↦ rw other (ne, NotIn-erase_first p n rest h)
]

Distinct-erase_first : (n : ℕ) (xs : List ℕ) → Distinct xs → Distinct (erase_first n xs)
unfolding erase_first
Distinct-erase_first n [] h = tt
Distinct-erase_first n (q ∷ rest) (ne, h) = elim (Bool-cases (q == n)) [
  | inl same ↦ rw same h
  | inr other ↦ rw other (NotIn-erase_first q n rest ne, Distinct-erase_first n rest h)
]

-- The first list has none of the second.
abbrev Apart : List ℕ → List ℕ → Type 0
Apart [] rest = Unit {0}
Apart (p ∷ done) rest = NotIn p rest × Apart done rest

Apart-tail : (done : List ℕ) (p : ℕ) (rest : List ℕ) → Apart done (p ∷ rest) → Apart done rest
Apart-tail [] p rest h = tt
Apart-tail (q ∷ done) p rest ((ne, h), k) = (h, Apart-tail done p rest k)

Apart-append :
    (done : List ℕ) (p : ℕ) (rest : List ℕ)
    → Apart done (p ∷ rest)
    → NotIn p rest
    → Apart (done ++ p ∷ []) rest
Apart-append [] p rest h new = (new, tt)
Apart-append (q ∷ done) p rest ((ne, h), k) new = (h, Apart-append done p rest k new)

erase_first-append :
    (done : List ℕ) (p : ℕ) (rest : List ℕ)
    → Apart done (p ∷ rest)
    → erase_first p (done ++ p ∷ rest) ≡ done ++ rest
unfolding erase_first
erase_first-append [] p rest h = ground arith
erase_first-append (q ∷ done) p rest ((ne, h), k) =
    ground (arith, ne, erase_first-append done p rest k)

keep_receivers_eq :
    (test : ℕ → Bool) (done rest : List ℕ)
    → Apart done rest
    → Distinct rest
    → keep_receivers test rest (done ++ rest) ≡ done ++ those test rest
unfolding keep_receivers
keep_receivers_eq test done [] apart distinct = refl
keep_receivers_eq test done (p ∷ rest) apart (ne, distinct) = elim (Bool-cases (test p)) [
  | inl receives ↦ rw receives (
      ap (keep_receivers test rest) (sym (append_assoc done (p ∷ []) rest))
      ∙ keep_receivers_eq test (done ++ p ∷ []) rest (Apart-append done p rest apart ne) distinct
      ∙ append_assoc done (p ∷ []) (those test rest))
  | inr other ↦ rw other (
      ap (keep_receivers test rest) (erase_first-append done p rest apart)
      ∙ keep_receivers_eq test done rest (Apart-tail done p rest apart) distinct)
]

named_targets-Distinct :
    (peers : List ℕ) (peer : ℕ) → Distinct peers → Distinct (named_targets peers peer)
unfolding named_targets
named_targets-Distinct peers peer distinct = elim (Bool-cases (is_positive64 peer)) [
  | inl one ↦ rw one (tt, tt)
  | inr more ↦ rw more (elim (Bool-cases (is_negative64 peer)) [
    | inl but_one ↦ rw but_one (Distinct-erase_first (negate64 peer) peers distinct)
    | inr all ↦ rw all distinct
  ])
]

those_all : (test : ℕ → Bool) (xs : List ℕ) → ((p : ℕ) → test p ≡ true) → those test xs ≡ xs
those_all test [] h = refl
those_all test (p ∷ rest) h = ground (arith, h p, those_all test rest h)

those_none : (test : ℕ → Bool) (xs : List ℕ) → ((p : ℕ) → test p ≡ false) → those test xs ≡ []
those_none test [] h = refl
those_none test (p ∷ rest) h = ground (arith, h p, those_none test rest h)

those_others : (n : ℕ) (xs : List ℕ) → NotIn n xs → those (λ p. not (p == n)) xs ≡ xs
those_others n [] h = refl
those_others n (p ∷ rest) (ne, h) = ground (arith, ne, those_others n rest h)

erase_first-those :
    (n : ℕ) (xs : List ℕ) → Distinct xs → erase_first n xs ≡ those (λ p. not (p == n)) xs
unfolding erase_first
erase_first-those n [] h = refl
erase_first-those n (p ∷ rest) (ne, h) = elim (Bool-cases (p == n)) [
  | inl same ↦
      rw same (sym (those_others n rest (subst (λ q. NotIn q rest) ((==_iff p n).0 same) ne)))
  | inr other ↦ rw other (ap (λ xs. p ∷ xs) (erase_first-those n rest h))
]

-- Everybody, everybody but a peer, or the peer, whatever stands where in the list of peers.
abbrev pub meant : List ℕ → ℕ → List ℕ
meant peers peer =
    if is_positive64 peer
    then peer ∷ []
    else if is_negative64 peer
    then those (λ p. not (p == negate64 peer)) peers
    else peers

named_targets-meant :
    (peers : List ℕ) (peer : ℕ) → Distinct peers → named_targets peers peer ≡ meant peers peer
unfolding named_targets
named_targets-meant peers peer distinct =
    ground (arith, erase_first-those (negate64 peer) peers distinct)

abbrev pub receives : Outgoing → ℕ → Bool
receives o p = if o.on_node then o.can_they_recv p else o.clients_receive

target_peers_eq :
    (api : Api) (o : Outgoing) (peer : ℕ)
    → is_server api ≡ true
    → Distinct o.peers
    → target_peers api o peer ≡ those (receives o) (meant o.peers peer)
unfolding target_peers
target_peers_eq api o peer server distinct =
    let targets = named_targets o.peers peer in
    let e = named_targets-meant o.peers peer distinct in
    subst (λ xs. target_peers api o peer ≡ those (receives o) xs) e
      (elim (Bool-cases o.on_node) [
        | inl node ↦
            rw (target_peers, server, node)
              (keep_receivers_eq o.can_they_recv [] targets tt
                (named_targets-Distinct o.peers peer distinct))
        | inr plain ↦ elim (Bool-cases o.clients_receive) [
          | inl all ↦
              rw (target_peers, server, plain, all)
                (sym (those_all (λ p. true) targets (λ p. refl)))
          | inr none ↦
              rw (target_peers, server, plain, none)
                (sym (those_none (λ p. false) targets (λ p. refl)))
        ]
      ])

module _ {V : Type 0} (engine : Engine V) where
  -- The command that takes a server's call to a peer.
  abbrev pub command_for : Api → Outgoing → ℕ → List V → ℕ → Command
  command_for api o object args p = record {
    target_peer = p;
    bytes = compress_rpc engine api 1 p object o.method_idx args;
  }

  send_all_eq :
      (api : Api) (o : Outgoing) (object : ℕ) (args : List V) (xs : List ℕ)
      → is_server api ≡ true
      → get_id object api.repository ≢ minus_one64
      → o.method_idx < 256
      → send_all engine api o 1 object args xs
        ≡ map (command_for api o object args) (those (λ p. not (p == 1) && o.passes_filters p) xs)
  unfolding send_all is_empty
  send_all_eq api o object args [] server tracked few = refl
  send_all_eq api o object args (p ∷ rest) server tracked few =
      let (b, tail, e) = compress_rpc_some engine api 1 p object o.method_idx args tracked few in
      let later = send_all_eq api o object args rest server tracked few in
      let full : is_empty (compress_rpc engine api 1 p object o.method_idx args) ≡ false =
        ground (arith, e) in
      ground (arith, server, later, full)

  -- A server's own call that passes the checks is sent, without target modifiers, to the peer it
  -- is for, or to everybody, or to everybody but the peer n for the target -n, but only to those
  -- that may receive it, that the filters let through and that are not the server, in the order
  -- of the peers, of which none stands twice. At each client the bytes give back the call. The
  -- object's id fits 32 bits, the method's number is below 256, and the engine's decoding gives
  -- the arguments back.
  pub outbound_rpc-reaches :
      (api api' : Api) (o : Outgoing) (peer object : ℕ) (args : List V)
      → is_server api ≡ true
      → is_client api' ≡ true
      → outbound_error api o object ≡ ok
      → ((xs : List ℕ) → o.modify_targets xs ≡ xs)
      → Distinct o.peers
      → DecodesArgs engine args
      → get_id object api.repository < 4294967296
      → o.method_idx < 256
      → ((outbound_rpc engine api o 0 peer object args).commands
          ≡ map (command_for api o object args) (
              those
                (λ p. not (p == 1) && o.passes_filters p)
                (those (receives o) (meant o.peers peer))))
        × ((p : ℕ)
            → p < 4294967296
            → decompress_rpc engine api' 1 (command_for api o object args p).bytes
              ≡ some (record {
                from_peer = 1;
                to_peer = p;
                object_id = get_id object api.repository;
                method_idx = o.method_idx;
                args = args;
              }))
  unfolding outbound_rpc is_ok
  outbound_rpc-reaches api api' o peer object args server client good plain distinct d small few =
      let tracked : get_id object api.repository ≢ minus_one64 = λ h. absurd (omega (arith, h)) in
      let own : api.unique_id ≡ 1 = ground arith in
      let aims = plain (target_peers api o peer) ∙ target_peers_eq api o peer server distinct in
      (
        rw (outbound_rpc, good)
            (ap
                (λ n.
                  send_all engine api o n object args (o.modify_targets (target_peers api o peer)))
                own
              ∙ ap (send_all engine api o 1 object args) aims
              ∙ send_all_eq api o object args (those (receives o) (meant o.peers peer)) server
                  tracked few),
        λ p small'.
            decompress_rpc-compress_rpc engine api api' 1 p object o.method_idx 1 args
              (ground arith) d small few (omega arith) small'
            ∙ rw server refl,
      )
