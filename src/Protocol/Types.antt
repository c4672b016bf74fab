-- ===== src/Protocol/Types.antt =====
-- The structs of src/session/sf4e__SessionProtocol.hxx that both sides keep as state, with the
-- functions of src/session/sf4e__SessionProtocol.cxx, and the game structs of
-- src/Dimps/Dimps__Wire.hxx.
use sf4_rollback_gui.Prelude.{
  ℕ, zero, suc, ◌+◌, ◌*◌, ◌/◌, ◌%◌, ◌≡◌, Bool, true, false, not, ◌&&◌, ◌||◌, List, [], ℤ, pos,
  minus_one, is_minus_one, Str, str_eqb, is_empty, ◌==◌, if◌then◌else◌, arith,
}

-- `integral` is a short, `fractional` an unsigned short.
pub record FixedPoint : Type 0 where
  pub fractional : ℕ
  pub integral : ℤ

-- Nine unsigned chars.
pub record ConfirmedCharaConditions : Type 0 where
  pub chara_id : ℕ
  pub costume : ℕ
  pub color : ℕ
  pub unused : ℕ
  pub personal_action : ℕ
  pub win_quote : ℕ
  pub ultra_combo : ℕ
  pub handicap : ℕ
  pub unc_edition : ℕ

abbrev pub zero_chara : ConfirmedCharaConditions
zero_chara = record {
  chara_id = 0;
  costume = 0;
  color = 0;
  unused = 0;
  personal_action = 0;
  win_quote = 0;
  ultra_combo = 0;
  handicap = 0;
  unc_edition = 0;
}

pub record ConnectionId : Type 0 where
  pub host : Str
  pub user : Str

unfoldable pub connection_id_eqb : ConnectionId → ConnectionId → Bool
connection_id_eqb a b = str_eqb a.host b.host && str_eqb a.user b.user

pub record LobbyId : Type 0 where
  pub host : Str
  pub key : Str

-- Every id with an empty host or key equals every other such id.
unfoldable pub lobby_id_eqb : LobbyId → LobbyId → Bool
lobby_id_eqb a b =
    if is_empty a.host || is_empty a.key
    then is_empty b.host || is_empty b.key
    else str_eqb a.host b.host && str_eqb a.key b.key

abbrev pub null_lobby_id : LobbyId
null_lobby_id = record { host = []; key = [] }

pub record MemberData : Type 0 where
  pub conn_id : ConnectionId
  pub name : Str
  pub ip : Str
  pub port : ℕ
  pub flags : ℕ

-- MF_BATTLE_LOADED is bit 0 of `flags`: `flags & 1`, `flags |= 1` and `flags &= ~1`.
unfoldable pub battle_loaded_flag : ℕ → Bool
battle_loaded_flag flags = flags % 2 == 1

unfoldable pub set_battle_loaded : ℕ → ℕ
set_battle_loaded flags = flags / 2 * 2 + 1

unfoldable pub clear_battle_loaded : ℕ → ℕ
clear_battle_loaded flags = flags / 2 * 2

-- NF_NEEDS_RELAY is bit 0 of `natFlags`.
unfoldable pub needs_relay_flag : ℕ → Bool
needs_relay_flag flags = flags % 2 == 1

pub record LobbyData : Type 0 where
  pub id : LobbyId
  pub name : Str
  pub edition_select : Bool
  pub round_count : ℤ
  pub round_time : FixedPoint
  pub members : List MemberData

abbrev pub null_lobby : LobbyData
null_lobby = record {
  id = null_lobby_id;
  name = [];
  edition_select = false;
  round_count = pos 0;
  round_time = record { fractional = 0; integral = pos 0 };
  members = [];
}

-- The arrays of two that `MatchData` holds, one entry for each side.
pub record Sides {ℓ} (A : Type ℓ) : Type ℓ where
  pub p1 : A
  pub p2 : A

-- Sides 0 and 1 only: the callers have checked the index.
abbrev pub set_side {ℓ} : {A : Type ℓ} → ℕ → A → Sides A → Sides A
set_side zero a x = record x { p1 = a }
set_side (suc n) a x = record x { p2 = a }

abbrev pub side {ℓ} : {A : Type ℓ} → ℕ → Sides A → A
side zero x = x.p1
side (suc n) x = x.p2

pub record MatchData : Type 0 where
  pub ready_message_num : Sides ℤ
  pub chara : Sides ConfirmedCharaConditions
  pub stage_id : ℤ
  pub rng_seed : ℕ
  pub relay_endpoint : Str

-- MatchData::Clear overwrites every field, so it does not depend on the old value.
abbrev pub cleared_match : MatchData
cleared_match = record {
  ready_message_num = record { p1 = minus_one; p2 = minus_one };
  chara = record { p1 = zero_chara; p2 = zero_chara };
  stage_id = minus_one;
  rng_seed = 0xffffffff;
  relay_endpoint = [];
}

-- MatchData::IsAllReady
unfoldable pub is_all_ready : MatchData → Bool
is_all_ready m =
    not (is_minus_one m.ready_message_num.p1) && not (is_minus_one m.ready_message_num.p2)

-- The three operations on the flag agree with each other and leave the other bits alone.
pub battle_loaded_flags :
    (flags : ℕ)
    → (battle_loaded_flag (set_battle_loaded flags) ≡ true)
      × (battle_loaded_flag (clear_battle_loaded flags) ≡ false)
      × (set_battle_loaded flags / 2 ≡ flags / 2)
      × (clear_battle_loaded flags / 2 ≡ flags / 2)
unfolding battle_loaded_flag set_battle_loaded clear_battle_loaded
battle_loaded_flags flags = (ground arith, ground arith, omega arith, omega arith)
