-- ===== src/Base/FilePath.antt =====
-- `pathlib` paths: a given path, and names under it.
use Prim.Native.String.{String, ◌++◌}

pub data FilePath : Type 0 where
  given : String → FilePath
  -- `p / name`
  join : FilePath → String → FilePath

-- `str(p)`
unfoldable pub show_path : FilePath → String
show_path (given s) = s
show_path (join p name) = show_path p ++ "/" ++ name
