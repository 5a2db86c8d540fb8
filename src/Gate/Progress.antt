-- ===== src/Gate/Progress.antt =====
-- A request that waits for tokens gets them: no buffer of the program is larger than the bucket.
use orange_frp.Prelude.{nat_eq, list_eq, pair_eq}
