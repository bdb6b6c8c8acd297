-- ===== src/Client/S3Client/Opening.antt =====
-- `NewS3Client` of s3/client.go. What it calls of the AWS SDK is a parameter: the loading of a
-- configuration, by region, keys and the answer of the endpoint resolver, and `HeadBucket`. The
-- options that it sets on the SDK's client for good are part of the parameter.
use levels.Base.{◌≡◌, Option, none, some, Str, is_empty, if◌then◌else◌, arith}
use levels.Failure.{wrapped, Result, ok, err, Outcome}
use levels.Config.{OpenOption, apply_defaults, validate}
use levels.Config.Laws.{IsComplete, apply_defaults-IsComplete}
use levels.Client.{Context, background}

pub record SdkSetup (S : Type 0) : Type 0 where
  -- `config.LoadDefaultConfig`; `none` is the answer that leaves the endpoint to the SDK.
  pub load_config : Str → Str → Str → Option Str → Outcome
  pub head_bucket : Context → Str → S → Outcome × S

-- The endpoint resolver that it hands over.
abbrev pub resolve_endpoint : OpenOption → Option Str
resolve_endpoint opt = if is_empty opt.endpoint then none else some opt.endpoint

-- The options of the client that is made.
unfoldable pub new_s3_client : {S : Type 0} → SdkSetup S → OpenOption → S → Result OpenOption × S
new_s3_client setup given s =
    let opt = apply_defaults given in
    elim (validate opt) [
      | err e ↦ (err e, s)
      | ok _ ↦ elim (setup.load_config opt.region opt.ak opt.sk (resolve_endpoint opt)) [
        | err e ↦ (err (wrapped "failed to load AWS config" e), s)
        | ok _ ↦
            let (r, s') = setup.head_bucket (background opt.request_timeout) opt.bucket s in
            elim r [ err e ↦ (err (wrapped "failed to access bucket" e), s') | ok _ ↦ (ok opt, s') ]
      ]
    ]

-- A client that is made retries, waits and counts within the bounds that its options set.
new_s3_client-IsComplete :
    {S : Type 0} (setup : SdkSetup S) (given opt : OpenOption) (s : S)
    → (new_s3_client setup given s).0 ≡ ok opt
    → IsComplete opt
unfolding new_s3_client
new_s3_client-IsComplete setup given opt s h =
    let made : apply_defaults given ≡ opt = ground arith in
    rw⁻¹ made (apply_defaults-IsComplete given)
