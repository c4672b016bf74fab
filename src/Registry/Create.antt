-- ===== src/Registry/Create.antt =====
-- A new lobby of src/session/sf4e__LobbyRegistry.cxx never meets an old one: the keys in use are the
-- numbers below `next_key`.
use sf4_rollback_gui.Prelude.{
  ℕ, ◌+◌, ◌<◌, ◌≡◌, ◌≢◌, refl, [], ◌∷◌, none, some, Option-cases, inl, inr, Str, All, arith,
  to_string, to_string_inj,
}
use sf4_rollback_gui.Prelude.Map
use sf4_rollback_gui.Prelude.Map.{Map, str_key}
use sf4_rollback_gui.Registry.{
  Lobby, LobbyRegistry, LobbySettings, default_lobby, configure, lobby_at, create, find_by_key,
}

-- The entry's key is the text of a number below `n`.
abbrev pub KeyBelow : ℕ → Str × Lobby → Type 0
KeyBelow n e = (i : ℕ) × (e.0 ≡ to_string i) × (i < n)

KeyBelow-ne : (n : ℕ) (l : Lobby) → ¬ KeyBelow n (to_string n, l)
KeyBelow-ne n l (i, e, h) = absurd (omega (arith, to_string_inj n i e))

-- The next key is not in use.
pub find-next_key :
    (n : ℕ) (m : Map Str Lobby) → All (KeyBelow n) m → Map.find (to_string n) m ≡ none
find-next_key n m h = elim (Option-cases (Map.find (to_string n) m)) [
  | inl e ↦ e
  | inr (l, e) ↦ absurd (KeyBelow-ne n l (Map.All-find (KeyBelow n) (to_string n) m l h e))
]

pub KeyBelow-suc : (n : ℕ) (m : Map Str Lobby) → All (KeyBelow n) m → All (KeyBelow (n + 1)) m
KeyBelow-suc n [] h = tt
KeyBelow-suc n (e ∷ m) ((i, k, lt), rest) = ((i, k, omega arith), KeyBelow-suc n m rest)

-- The lobby that a registry with fresh keys makes: empty, and as the settings say.
abbrev pub new_lobby : LobbySettings → LobbyRegistry → Lobby
new_lobby c r = record default_lobby {
  id = record { host = r.host_identity; key = to_string r.next_key };
  display_name = c.display_name;
  edition_select = c.edition_select;
  round_count = c.round_count;
  round_time = c.round_time;
  capacity = c.capacity;
  persistent = c.persistent;
  unlisted = c.unlisted;
}

pub lobbies-create :
    (c : LobbySettings) (r : LobbyRegistry)
    → All (KeyBelow r.next_key) r.lobbies
    → (create c r).1.lobbies ≡ Map.insert (to_string r.next_key) (new_lobby c r) r.lobbies
unfolding create configure lobby_at
lobbies-create c r h = rw (create, lobby_at, find-next_key r.next_key r.lobbies h)

pub next_key-create :
    (c : LobbySettings) (r : LobbyRegistry) → (create c r).1.next_key ≡ r.next_key + 1
unfolding create
next_key-create c r = refl

pub key-create : (c : LobbySettings) (r : LobbyRegistry) → (create c r).0 ≡ to_string r.next_key
unfolding create
key-create c r = refl

pub create-KeyBelow :
    (c : LobbySettings) (r : LobbyRegistry)
    → All (KeyBelow r.next_key) r.lobbies
    → All (KeyBelow (create c r).1.next_key) (create c r).1.lobbies
create-KeyBelow c r h =
    rw (lobbies-create c r h, next_key-create c r)
      (Map.All-insert (KeyBelow (r.next_key + 1)) (to_string r.next_key) (new_lobby c r) r.lobbies
        (r.next_key, refl, omega arith) (KeyBelow-suc r.next_key r.lobbies h))

-- While the keys in use are numbers below the next one, Create makes an empty lobby with the given
-- settings, the server's host and the returned key, a key that no lobby had; a lobby under another
-- key stays as it is, and the keys in use are again below the next one.
pub create_fresh :
    (c : LobbySettings) (r : LobbyRegistry) (k : Str)
    → All (KeyBelow r.next_key) r.lobbies
    → k ≢ (create c r).0
    → (find_by_key (create c r).0 r ≡ none)
      × (find_by_key (create c r).0 (create c r).1 ≡ some (new_lobby c r))
      × (find_by_key k (create c r).1 ≡ find_by_key k r)
      × All (KeyBelow (create c r).1.next_key) (create c r).1.lobbies
unfolding find_by_key
create_fresh c r k h ne = (
  rw (key-create c r) (find-next_key r.next_key r.lobbies h),
  rw (key-create c r, lobbies-create c r h) (Map.find-insert_self _ _ _),
  rw (lobbies-create c r h) (
      ground (
        arith,
        ne,
        key-create c r,
        Map.find-insert (to_string r.next_key) k (new_lobby c r) r.lobbies,
        str_key.eqb_iff (to_string r.next_key) k,
      )),
  create-KeyBelow c r h,
)
