-- ===== src/Binding/Methods.antt =====
-- The method tables of src/database.cc, src/iterator.cc, src/batch.cc and src/leveldown.cc, and the
-- methods that leveldown.js, iterator.js and chained-batch.js call.
use Prim.Native.String.{String}
use text.Mathlib.Text.{◌==◌}
use leveldown.Base.{◌≡◌, refl, Option, none, some, List, [], ◌∷◌, if◌then◌else◌}

-- The functions that are registered.
pub data Native : Type 0 where
  database_open database_open_sync database_close database_close_sync : Native
  database_put database_put_sync database_get database_get_sync : Native
  database_delete database_delete_sync database_batch database_batch_sync : Native
  database_approximate_size database_compact_range database_get_property database_iterator : Native
  iterator_seek iterator_next iterator_next_sync iterator_end iterator_end_sync : Native
  batch_put batch_del batch_clear batch_write : Native
  destroy_db repair_db : Native

abbrev pub Table : Type 0
Table = List (String × Native)

-- `Database::Init`, `Iterator::Init`, `Batch::Init` and the functions that `Init` sets on `leveldown`.
unfoldable pub database_methods : Table
database_methods =
    ("open", database_open)
    ∷ ("openSync", database_open_sync)
    ∷ ("close", database_close)
    ∷ ("closeSync", database_close_sync)
    ∷ ("put", database_put)
    ∷ ("putSync", database_put_sync)
    ∷ ("get", database_get)
    ∷ ("getSync", database_get_sync)
    ∷ ("del", database_delete)
    ∷ ("delSync", database_delete_sync)
    ∷ ("batch", database_batch)
    ∷ ("batchSync", database_batch_sync)
    ∷ ("approximateSize", database_approximate_size)
    ∷ ("compactRange", database_compact_range)
    ∷ ("getProperty", database_get_property)
    ∷ ("iterator", database_iterator)
    ∷ []

unfoldable pub iterator_methods : Table
iterator_methods =
    ("seek", iterator_seek)
    ∷ ("next", iterator_next)
    ∷ ("nextSync", iterator_next_sync)
    ∷ ("end", iterator_end)
    ∷ ("endSync", iterator_end_sync)
    ∷ []

unfoldable pub batch_methods : Table
batch_methods =
    ("put", batch_put) ∷ ("del", batch_del) ∷ ("clear", batch_clear) ∷ ("write", batch_write) ∷ []

unfoldable pub leveldown_functions : Table
leveldown_functions = ("destroy", destroy_db) ∷ ("repair", repair_db) ∷ []

-- The property of an object under a name; none is `undefined`, and to call it throws.
unfoldable pub find : String → Table → Option Native
find name [] = none
find name ((n, f) ∷ rest) = let others = find name rest in if n == name then some f else others

-- Each method of the wrappers, and the name under which it calls the binding.
pub data Wrapped : Type 0 where
  js_open js_open_sync js_close js_close_sync js_put js_put_sync js_get js_get_sync : Wrapped
  js_del js_del_sync js_batch js_batch_sync js_approximate_size js_compact_range : Wrapped
  js_get_property js_iterator js_chained_batch : Wrapped
  js_destroy js_repair : Wrapped
  js_seek js_next js_next_sync js_end js_end_sync : Wrapped
  js_batch_put js_batch_del js_batch_clear js_batch_write : Wrapped

unfoldable pub called : Wrapped → Table × String
called js_open = (database_methods, "open")
called js_open_sync = (database_methods, "openSync")
called js_close = (database_methods, "close")
called js_close_sync = (database_methods, "closeSync")
called js_put = (database_methods, "put")
called js_put_sync = (database_methods, "putSync")
called js_get = (database_methods, "get")
called js_get_sync = (database_methods, "getSync")
called js_del = (database_methods, "del")
called js_del_sync = (database_methods, "delSync")
called js_batch = (database_methods, "batch")
called js_batch_sync = (database_methods, "batchSync")
called js_approximate_size = (database_methods, "approximateSize")
called js_compact_range = (database_methods, "compactRange")
called js_get_property = (database_methods, "getProperty")
called js_iterator = (database_methods, "iterator")
called js_chained_batch = (database_methods, "batch")
called js_destroy = (leveldown_functions, "destroy")
called js_repair = (leveldown_functions, "repair")
called js_seek = (iterator_methods, "seek")
called js_next = (iterator_methods, "next")
called js_next_sync = (iterator_methods, "nextSync")
called js_end = (iterator_methods, "end")
called js_end_sync = (iterator_methods, "endSync")
called js_batch_put = (batch_methods, "put")
called js_batch_del = (batch_methods, "del")
called js_batch_clear = (batch_methods, "clear")
called js_batch_write = (batch_methods, "write")

-- What each is a wrapper of, by its name.
abbrev meant : Wrapped → Native
meant js_open = database_open
meant js_open_sync = database_open_sync
meant js_close = database_close
meant js_close_sync = database_close_sync
meant js_put = database_put
meant js_put_sync = database_put_sync
meant js_get = database_get
meant js_get_sync = database_get_sync
meant js_del = database_delete
meant js_del_sync = database_delete_sync
meant js_batch = database_batch
meant js_batch_sync = database_batch_sync
meant js_approximate_size = database_approximate_size
meant js_compact_range = database_compact_range
meant js_get_property = database_get_property
meant js_iterator = database_iterator
meant js_chained_batch = database_batch
meant js_destroy = destroy_db
meant js_repair = repair_db
meant js_seek = iterator_seek
meant js_next = iterator_next
meant js_next_sync = iterator_next_sync
meant js_end = iterator_end
meant js_end_sync = iterator_end_sync
meant js_batch_put = batch_put
meant js_batch_del = batch_del
meant js_batch_clear = batch_clear
meant js_batch_write = batch_write

-- Whatever method of the wrappers is called, the name that it uses of the binding is registered, for
-- the function that the method is a wrapper of.
called-find : (w : Wrapped) → find (called w).1 (called w).0 ≡ some (meant w)
unfolding find called database_methods iterator_methods batch_methods leveldown_functions
called-find js_open = refl
called-find js_open_sync = refl
called-find js_close = refl
called-find js_close_sync = refl
called-find js_put = refl
called-find js_put_sync = refl
called-find js_get = refl
called-find js_get_sync = refl
called-find js_del = refl
called-find js_del_sync = refl
called-find js_batch = refl
called-find js_batch_sync = refl
called-find js_approximate_size = refl
called-find js_compact_range = refl
called-find js_get_property = refl
called-find js_iterator = refl
called-find js_chained_batch = refl
called-find js_destroy = refl
called-find js_repair = refl
called-find js_seek = refl
called-find js_next = refl
called-find js_next_sync = refl
called-find js_end = refl
called-find js_end_sync = refl
called-find js_batch_put = refl
called-find js_batch_del = refl
called-find js_batch_clear = refl
called-find js_batch_write = refl
