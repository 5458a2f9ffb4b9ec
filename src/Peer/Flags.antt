-- ===== src/Peer/Flags.antt =====
-- The flags that packets are sent with.
use godot_godaemon_multiplay.Prelude.{◌≡◌, refl, Bool, true, false}
use godot_godaemon_multiplay.Godot.{TransferMode, reliable, unreliable, unreliable_ordered}
use godot_godaemon_multiplay.Steam.{Constants, AreDocumented}
use godot_godaemon_multiplay.Connection.{has_reliable_flag}
use godot_godaemon_multiplay.Peer.State.{SteamMultiplayerPeer}
use godot_godaemon_multiplay.Peer.Settings.{
  get_steam_transfer_flag, set_transfer_mode, set_no_nagle, set_no_delay,
}

abbrev pub wants_reliable : TransferMode → Bool
wants_reliable reliable = true
wants_reliable unreliable_ordered = true
wants_reliable unreliable = false

-- With Steam's documented flags, what is sent after the three setters carries the reliable flag
-- unless the mode is `TRANSFER_MODE_UNRELIABLE`, and the flags for no Nagle and no delay exactly
-- as they were set.
pub get_steam_transfer_flag_bits :
    (c : Constants) (mode : TransferMode) (nagle delay : Bool) (p : SteamMultiplayerPeer)
    → AreDocumented c
    → let flag =
        get_steam_transfer_flag c
          (set_transfer_mode mode (set_no_nagle nagle (set_no_delay delay p))) in
      (has_reliable_flag c.send_reliable flag ≡ wants_reliable mode)
      × (has_reliable_flag c.send_no_nagle flag ≡ nagle)
      × (has_reliable_flag c.send_no_delay flag ≡ delay)
unfolding get_steam_transfer_flag set_transfer_mode set_no_nagle set_no_delay has_reliable_flag
get_steam_transfer_flag_bits c reliable true true p d =
    simp (d.reliable_is, d.no_nagle_is, d.no_delay_is) (refl, refl, refl)
get_steam_transfer_flag_bits c reliable true false p d =
    simp (d.reliable_is, d.no_nagle_is, d.no_delay_is) (refl, refl, refl)
get_steam_transfer_flag_bits c reliable false true p d =
    simp (d.reliable_is, d.no_nagle_is, d.no_delay_is) (refl, refl, refl)
get_steam_transfer_flag_bits c reliable false false p d =
    simp (d.reliable_is, d.no_nagle_is, d.no_delay_is) (refl, refl, refl)
get_steam_transfer_flag_bits c unreliable true true p d =
    simp (d.reliable_is, d.no_nagle_is, d.no_delay_is, d.unreliable_is) (refl, refl, refl)
get_steam_transfer_flag_bits c unreliable true false p d =
    simp (d.reliable_is, d.no_nagle_is, d.no_delay_is, d.unreliable_is) (refl, refl, refl)
get_steam_transfer_flag_bits c unreliable false true p d =
    simp (d.reliable_is, d.no_nagle_is, d.no_delay_is, d.unreliable_is) (refl, refl, refl)
get_steam_transfer_flag_bits c unreliable false false p d =
    simp (d.reliable_is, d.no_nagle_is, d.no_delay_is, d.unreliable_is) (refl, refl, refl)
get_steam_transfer_flag_bits c unreliable_ordered true true p d =
    simp (d.reliable_is, d.no_nagle_is, d.no_delay_is) (refl, refl, refl)
get_steam_transfer_flag_bits c unreliable_ordered true false p d =
    simp (d.reliable_is, d.no_nagle_is, d.no_delay_is) (refl, refl, refl)
get_steam_transfer_flag_bits c unreliable_ordered false true p d =
    simp (d.reliable_is, d.no_nagle_is, d.no_delay_is) (refl, refl, refl)
get_steam_transfer_flag_bits c unreliable_ordered false false p d =
    simp (d.reliable_is, d.no_nagle_is, d.no_delay_is) (refl, refl, refl)
