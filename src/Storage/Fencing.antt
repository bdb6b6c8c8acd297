-- ===== src/Storage/Fencing.antt =====
-- The calls of LevelDB that ask whether the lock is lost before they write: those of the storage and
-- of its writers as one type of operations, and runs of them. `Lock` and `Unlock` are not among
-- them: they are events of a session.
pub mod Laws
use levels.Base.{Bool, List, [], ◌∷◌, Bytes}
use levels.FileDesc.{FileType, FileDesc}
use levels.Storage.State.{Env, Settings, St}
use levels.Storage.Writer
use levels.Storage.Writer.{MemWriter}
use levels.Storage.Access
use levels.Storage.Rename

pub data Operation : Type 0 where
  set_meta : FileDesc → Operation
  get_meta : Operation
  list : (FileType → Bool) → Operation
  open_file : FileDesc → Operation
  create : FileDesc → Operation
  remove : FileDesc → Operation
  rename : FileDesc → FileDesc → Operation
  write : MemWriter → Bytes → Operation
  sync : MemWriter → Operation
  close_writer : MemWriter → Operation
  close_storage : Operation

module _ (E : Env) (cfg : Settings) where
  -- The state after an operation, whatever it returns.
  unfoldable pub perform : Operation → St E → St E
  perform (set_meta fd) s = (Access.set_meta E cfg fd s).1
  perform get_meta s = (Access.get_meta E cfg s).1
  perform (list ft) s = (Access.list E cfg ft s).1
  perform (open_file fd) s = (Access.open_file E cfg fd s).1
  perform (create fd) s = (Writer.create E cfg fd s).1
  perform (remove fd) s = (Access.remove E cfg fd s).1
  perform (rename oldfd newfd) s = (Rename.rename E cfg oldfd newfd s).1
  perform (write w p) s = (Writer.write E cfg w p s).1
  perform (sync w) s = (Writer.sync E cfg w s).1
  perform (close_writer w) s = (Writer.close E cfg w s).1
  perform close_storage s = (Access.close_storage E cfg s).1

  unfoldable pub perform_all : List Operation → St E → St E
  unfolding perform
  perform_all [] s = s
  perform_all (op ∷ ops) s = perform_all ops (perform op s)
