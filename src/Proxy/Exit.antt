-- ===== src/Proxy/Exit.antt =====
-- src/proxy/exit.rs: the exits that hosts were last reached by. The LRU cache is another package's:
-- its `put` and `peek` are parameters, and so is `str::to_lowercase`.
use unroxy.Base.{ℕ, Bool, true, false, Option, some, ◌≡◌, refl, if◌then◌else◌}
use unroxy.Base.Text.{Text, is_empty}

pub record Exit : Type 0 where
  pub ip : Text
  pub region : Text
  pub protocol : Text

-- `EXIT_CACHE_ENTRIES`
abbrev pub exit_cache_entries : ℕ
exit_cache_entries = 4096

-- `Exit::is_empty`
abbrev pub is_empty_exit : Exit → Bool
is_empty_exit exit = is_empty exit.ip

-- What the code uses of the cache: with so many entries, put at a key, and peek without a change.
pub record Cache : Type 1 where
  pub Lru : Type 0
  pub new : ℕ → Lru
  pub put : Text → Exit → Lru → Lru
  pub peek : Text → Lru → Option Exit
  pub to_lowercase : Text → Text

module _ (cache : Cache) where
  unfoldable pub default_exits : cache.Lru
  default_exits = cache.new exit_cache_entries

  -- `ExitCache::record`
  unfoldable pub record_exit : Text → Exit → cache.Lru → cache.Lru
  record_exit host exit exits =
      if is_empty_exit exit then exits else cache.put (cache.to_lowercase host) exit exits

  -- `ExitCache::get`
  unfoldable pub get_exit : Text → cache.Lru → Option Exit
  get_exit host exits = cache.peek (cache.to_lowercase host) exits

  -- If what was put last is peeked at its key, then after an exit with an address was recorded for
  -- a host, it is what the cache gives for every host with the same lower-case text, and an exit
  -- without an address leaves the cache as it was.
  pub get_exit-record_exit :
      (host other : Text) (exit : Exit) (exits : cache.Lru)
      → ((key : Text) (e : Exit) (lru : cache.Lru) → cache.peek key (cache.put key e lru) ≡ some e)
      → cache.to_lowercase other ≡ cache.to_lowercase host
      → get_exit other (record_exit host exit exits)
        ≡ (if is_empty_exit exit then get_exit other exits else some exit)
  unfolding record_exit get_exit
  get_exit-record_exit host other exit exits law same = go (is_empty_exit exit)
    where
      go :
          (b : Bool)
          → cache.peek
              (cache.to_lowercase other)
              (if b then exits else cache.put (cache.to_lowercase host) exit exits)
            ≡ (if b then cache.peek (cache.to_lowercase other) exits else some exit)
      go true = refl
      go false = rw (same) (law (cache.to_lowercase host) exit exits)
