-- ===== src/Echo/Overlong.antt =====
-- OnMessage of the echo server on a line that is too long.
use high_concurrency_server.Common.{◌<◌, Lacks, length}
use high_concurrency_server.Buffer.{Buffer, lf}
use high_concurrency_server.Buffer.Inv.{IsValid, contents}
use high_concurrency_server.Http.Content.{max_line}
use high_concurrency_server.Http.Content

-- A buffer with more than `MAX_LINE` bytes and without a line feed.
record IsOverlong (b : Buffer) : Type 0 where
  valid : IsValid b
  lacks : Lacks lf (contents b)
  long : max_line < length (contents b)
