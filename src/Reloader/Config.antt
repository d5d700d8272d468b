-- ===== src/Reloader/Config.antt =====
-- `ReloadableConfig` and `ReloadableJson` of cpp_lib/reloader/reloadable_conf.h and
-- reloadable_json.h: a `Load` fills the spare object of a double buffer and switches. The objects
-- stand in a store by address. What the configured type and the parser do is an argument.
pub mod Written
use cpp_lib.Prelude.{ℕ, ◌≤◌, ◌≡◌, ◌≢◌, ◌⊎◌, Bool, true, false, arith, update, if◌then◌else◌}
use cpp_lib.Container.DoubleBuffer.{DoubleBuffer, init_shared, get, next, switch}
use cpp_lib.Reloader.File.{stone_ok}

abbrev pub parse_json_failed_error : ℕ
parse_json_failed_error = 60010401

abbrev pub init_failed_error : ℕ
init_failed_error = 60010402

pub record Config (T : Type 0) : Type 0 where
  pub double_confs : DoubleBuffer ℕ
  pub ready : Bool
  pub store : ℕ → T

module _ {T : Type 0} where
  -- The constructor, with the one object that `std::make_shared` makes.
  unfoldable pub init : ℕ → (ℕ → T) → Config T
  init address store = record { double_confs = init_shared address; ready = false; store = store }

  -- `Data` and `Get`: the object behind the pointer that is returned.
  unfoldable pub current : Config T → T
  current c = c.store (get c.double_confs)

  module _ {FilePath : Type 0} where
    -- `ReloadableConfig::load`; `init_from` is the `Init` of the object: its result and the object
    -- that it leaves.
    unfoldable pub load_config : (FilePath → T → Bool × T) → FilePath → ℕ → Config T → ℕ × Config T
    load_config init_from path length c =
        let ptr_data = next c.double_confs in
        let (done, object) = init_from path (c.store ptr_data) in
        let c' : Config T = record c { store = update c.store ptr_data object } in
        if done
        then (stone_ok, record c' { double_confs = switch c.double_confs; ready = true })
        else (init_failed_error, c')

    -- `ReloadableJson::Load`; `read` is the file without its comments, `parse` and `init_object`
    -- the parser and the `Init` of the object.
    unfoldable pub load_json :
        {Content : Type 0}
        → (FilePath → Content)
        → (Content → T → Bool × T)
        → (T → Bool × T)
        → FilePath
        → ℕ
        → Config T
        → ℕ × Config T
    load_json read parse init_object path length c =
        let ptr_data = next c.double_confs in
        let (parsed, object) = parse (read path) (c.store ptr_data) in
        let (done, object') = init_object object in
        let store' = update c.store ptr_data object' in
        if parsed
        then (if done
            then (
              stone_ok,
              record c { store = store'; double_confs = switch c.double_confs; ready = true },
            )
            else (init_failed_error, record c { store = store' }))
        else (parse_json_failed_error, record c { store = update c.store ptr_data object })

    -- As the constructor makes it, both pointers of the double buffer are one object: a `Load`
    -- whose parse fails returns the error, and the current object is what the parse has left.
    pub load_json_shared :
        {Content : Type 0} (read : FilePath → Content) (parse : Content → T → Bool × T)
        (init_object : T → Bool × T) (path : FilePath) (length address : ℕ) (store : ℕ → T)
        → (parse (read path) (store address)).0 ≡ false
        → let r = load_json read parse init_object path length (init address store) in
          (r.0 ≡ parse_json_failed_error) × (current r.1 ≡ (parse (read path) (store address)).1)
    unfolding load_json current get next init init_shared
    load_json_shared read parse init_object path length address store h = ground arith
