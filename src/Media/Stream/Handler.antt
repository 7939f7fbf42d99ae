-- ===== src/Media/Stream/Handler.antt =====
-- packages/wazeko/src/media/stream-handler.ts: where the temporary files of a handler are.
use wazeko.Prelude.{ℕ, Option, ◌++◌}
use wazeko.Text.{Text, codes}
use wazeko.Text.Decimal.{decimal}
use wazeko.Queue.RateLimiter.{or_else}
use wazeko.Core.Errors.{Void}
use wazeko.Auth.Disk.{FsResult, FileSystem, PathModule}

pub record StreamMediaHandler : Type 0 where
  pub temp_dir : Text

-- `tmpdir` is `os.tmpdir()`.
unfoldable pub new_handler : PathModule → Text → Option Text → StreamMediaHandler
new_handler p tmpdir temp_dir = record {
  temp_dir = or_else temp_dir (p.join tmpdir (codes "wazeko-media-cache"));
}

unfoldable pub init : (fs : FileSystem) → StreamMediaHandler → fs.Disk → FsResult Void × fs.Disk
init fs h d = fs.mkdir h.temp_dir d

-- `hex` is six random bytes in hexadecimal digits.
unfoldable pub get_temp_path : PathModule → ℕ → Text → Option Text → StreamMediaHandler → Text
unfolding decimal
get_temp_path p now hex filename h =
    p.join h.temp_dir
      (or_else filename (codes "media_" ++ decimal now ++ codes "_" ++ hex ++ codes ".tmp"))
