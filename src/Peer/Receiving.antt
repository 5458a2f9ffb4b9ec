-- ===== src/Peer/Receiving.antt =====
-- What handling a message keeps of a session, and the single steps of `_process_ping`.
use godot_godaemon_multiplay.Prelude.{
  ℕ, ◌≡◌, refl, ◌∙◌, ◌≢◌, inl, inr, true, some, [], ◌∷◌, arith, ◌==◌, ==_iff, Bool-cases, minus_one,
  bytes_of_u32,
}
use godot_godaemon_multiplay.HashMap.{HashMap, lookup}
use godot_godaemon_multiplay.Godot
use godot_godaemon_multiplay.Godot.{ok, peer_connected, transfer_mode_value}
use godot_godaemon_multiplay.Steam.{Env}
use godot_godaemon_multiplay.Packet.{new_packet}
use godot_godaemon_multiplay.Connection.{SteamConnection, send_peer, send_setup_peer}
use godot_godaemon_multiplay.Connection.Drain.{send-Drains}
use godot_godaemon_multiplay.Peer.State.{SteamMultiplayerPeer, load, store, object_at}
use godot_godaemon_multiplay.Peer.Action.{Session, on_connection}
use godot_godaemon_multiplay.Peer.Registry.{assign_peer_id, set_steam_id_peer}
use godot_godaemon_multiplay.Peer.Poll.{take_peer_id}
use godot_godaemon_multiplay.Peer.Refs.{Objects, Fits, load-store_self, load-store_ne}
use godot_godaemon_multiplay.Peer.Ends.{Ends, Ends-of_eq, on_connection_eq}
use godot_godaemon_multiplay.Peer.Invariant.{
  IsRegistry, HasSteamId, write_object-IsRegistry, assign_peer_id-IsRegistry,
}

-- Every object is still there, with its Steam id.
abbrev pub KeepsUsers : Objects → Objects → Type 0
KeepsUsers objects objects' =
    (a : ℕ) (c : SteamConnection)
    → load a objects ≡ some c
    → (d : SteamConnection) × (load a objects' ≡ some d) × (d.steam_id ≡ c.steam_id)

KeepsUsers-store :
    (b : ℕ) (objects : Objects) (c c' : SteamConnection)
    → load b objects ≡ some c
    → c'.steam_id ≡ c.steam_id
    → KeepsUsers objects (store b c' objects)
KeepsUsers-store b objects c c' there same a d found = elim (Bool-cases (b == a)) [
  | inl e ↦
      let hit = (==_iff b a).0 e in
      (
        c',
        rw (← hit) (load-store_self b objects c' c there),
        ground (arith, hit, there, found, same),
      )
  | inr e ↦ (d, load-store_ne b a objects c' (ground arith) ∙ found, refl)
]

pub Fits-KeepsUsers :
    (m : HashMap ℕ) (objects objects' : Objects)
    → KeepsUsers objects objects'
    → Fits HasSteamId m objects
    → Fits HasSteamId m objects'
Fits-KeepsUsers [] objects objects' keeps fits = tt
Fits-KeepsUsers ((k, a) ∷ m) objects objects' keeps ((c, there, fit), fits) =
    let (d, found, same) = keeps a c there in
    ((d, found, same ∙ fit), Fits-KeepsUsers m objects objects' keeps fits)

-- The registry, the users behind the `Ref`s and the map of connections are kept.
pub record Handled {W : Type 0} (s t : Session W) : Type 0 where
  pub registry : IsRegistry t.peer
  pub users : KeepsUsers s.peer.connection_objects t.peer.connection_objects
  pub connections : t.peer.connections_by_steam_id64 ≡ s.peer.connections_by_steam_id64

pub Handled-refl : {W : Type 0} (s : Session W) → IsRegistry s.peer → Handled s s
Handled-refl s r = record { registry = r; users = λ a c h. (c, h, refl); connections = refl }

pub Handled-trans : {W : Type 0} (s t u : Session W) → Handled s t → Handled t u → Handled s u
Handled-trans s t u h k = record {
  registry = k.registry;
  users = λ a c there.
      let (d, found, same) = h.users a c there in
      let (e, found', same') = k.users a d found in (e, found', same' ∙ same);
  connections = k.connections ∙ h.connections;
}

assign_peer_id-Handled :
    {W : Type 0} (a peer_id : ℕ) (c : SteamConnection) (s : Session W)
    → object_at a s.peer ≡ some c
    → peer_id ≢ minus_one
    → IsRegistry s.peer
    → Handled s (record s { peer = assign_peer_id a peer_id c s.peer })
assign_peer_id-Handled a peer_id c s there real r = record {
  registry = assign_peer_id-IsRegistry a peer_id c s.peer there real r;
  users =
      unfold assign_peer_id in
      (elim (Bool-cases (c.peer_id == minus_one)) [
        | inl fresh ↦ rw fresh (
            KeepsUsers-store a s.peer.connection_objects c (record c { peer_id = peer_id }) there
              refl)
        | inr old ↦ rw old (λ b d found. (d, found, refl))
      ]);
  connections = unfold assign_peer_id in ground arith;
}

module _ {W : Type 0} (env : Env W) where
  -- `take_peer_id` on the connection of the sender.
  pub take_peer_id-Handled :
      (a steam_id peer_id : ℕ) (c : SteamConnection) (s : Session W)
      → IsRegistry s.peer
      → lookup steam_id s.peer.connections_by_steam_id64 ≡ some a
      → object_at a s.peer ≡ some c
      → peer_id ≢ minus_one
      → (q : SteamMultiplayerPeer) × (take_peer_id env a steam_id peer_id s.peer ≡ some q)
        × Handled s (record s { peer = q })
  unfolding take_peer_id set_steam_id_peer
  take_peer_id-Handled a steam_id peer_id c s r entry there real =
      elim (Bool-cases (c.peer_id == minus_one)) [
        | inl fresh ↦ elim (Bool-cases (steam_id == env.own_steam_id)) [
          | inl own ↦ (s.peer, ground arith, Handled-refl s r)
          | inr other ↦ (
            assign_peer_id a peer_id c s.peer,
            ground arith,
            assign_peer_id-Handled a peer_id c s there real r,
          )
        ]
        | inr taken ↦ (s.peer, ground arith, Handled-refl s r)
      ]

module _ {W : Type 0} (env : Env W) (up : env.sockets ≡ true) where
  -- The answer to a ping: a send on the connection behind a `Ref`.
  pub send_peer-Handled :
      (a own : ℕ) (c : SteamConnection) (s : Session W)
      → object_at a s.peer ≡ some c
      → IsRegistry s.peer
      → Ends (on_connection a (send_peer env own) s) (λ e t. Handled s t)
  unfolding send_peer send_setup_peer
  send_peer-Handled a own c s there r =
      let (rest, w, e, d) =
        send-Drains env up
          (new_packet env.constants (bytes_of_u32 own) (transfer_mode_value Godot.reliable)) c
          s.world in
      let c' = record c { pending_retry_packets = rest } in
      Ends-of_eq _ _ ok _ (on_connection_eq a (send_peer env own) s c c' ok w there e) (record {
        registry = write_object-IsRegistry a c c' s.peer there refl refl r;
        users = KeepsUsers-store a s.peer.connection_objects c c' there refl;
        connections = refl;
      })
