-- ===== src/Examples/World.antt =====
-- The storage over the client of the bucket in memory, with a disk, a cache and names in memory.
use levels.Base.{Bool, true, false, [], codes}
use levels.Base.Int.{pos}
use levels.Config.{OpenOption}
use levels.Client.S3Client.{s3_client}
use levels.Client.SdkLaws.{object}
use levels.Client.Lawful.{s3_client-IsLawful}
use levels.Storage.State.{Env, Settings, St}
use levels.Storage.Laws.{EnvLaws}
use levels.Examples.Store.{find}
use levels.Examples.Sdk.{memory_sdk, memory_sdk-IsLawful, stored}
use levels.Examples.Disk.{
  on_disk, memory_disk, memory_disk-IsLawful, memory_lru, memory_lru-IsLawful,
}
use levels.Examples.Names.{name_of, name_of-IsNaming}

abbrev pub options : OpenOption
options = record {
  bucket = codes "bucket";
  path = codes "db";
  ak = codes "ak";
  sk = codes "sk";
  region = codes "region";
  endpoint = [];
  local_cache_dir = codes "/c";
  max_cache_size = pos 10;
  max_file_size = pos 100;
  retry_max_attempts = pos 2;
  retry_base_delay = pos 1;
  request_timeout = pos 1000;
  lease_duration = pos 60;
  lease_renewal = pos 20;
  enable_local_persistence = true;
  local_persistence_dir = codes "/p";
  retry_max_duration = pos 0;
  retry_flush_interval = pos 5;
  pending_shadow_prefix = codes "shadow";
  pending_max_concurrency = pos 4;
  max_pending_size = pos 0;
  has_pending_warning = false;
}

abbrev pub settings : Settings
settings = record {
  opt = options;
  local_dir = codes "/c/db";
  pending_dir = codes "/p";
  shadow_prefix = codes "shadow";
}

abbrev pub env : Env
env = record {
  api = s3_client memory_sdk options;
  fs = memory_disk;
  lru = memory_lru;
  name = name_of;
}

unfoldable pub env_laws : EnvLaws env
env_laws = record {
  object = object memory_sdk options stored;
  api = s3_client-IsLawful memory_sdk options stored memory_sdk-IsLawful;
  file = on_disk;
  fs = memory_disk-IsLawful;
  cached = find;
  lru = memory_lru-IsLawful;
  naming = name_of-IsNaming;
}

-- An empty world, in which requests fail or not and the lock is lost or not.
abbrev pub world : Bool → Bool → St env
world down lost = record {
  client = record { objects = []; down = down };
  files = record { entries = []; full = false };
  cache = [];
  closed = false;
  lock_lost = lost;
  lock_held = true;
  canceled = false;
  stopped = false;
}
