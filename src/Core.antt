-- ===== src/Core.antt =====
-- crates/pulsate-core/src/error.rs: error codes and the HTTP status they stand for. Of the registry
-- the codes that the modelled parts use are listed.
use pulsate.Prelude.{ℕ, ◌+◌, ◌/◌, ◌%◌, Option, none, some, [], ◌∷◌, ◌++◌, Str, bytes}

pub data Category : Type 0 where
  client upstream config security internal operational : Category

abbrev pub default_status : Category → ℕ
default_status client = 400
default_status upstream = 502
default_status config = 400
default_status security = 403
default_status internal = 500
default_status operational = 503

pub record Code : Type 0 where
  pub area : Str
  pub number : ℕ
  pub title : Str
  pub category : Category
  pub status : Option ℕ

abbrev pub http_status : Code → ℕ
http_status code = elim code.status [ none ↦ default_status code.category | some s ↦ s ]

-- A number in four decimal digits; those of the registry have no more.
abbrev pub four_digits : ℕ → Str
four_digits n =
    (48 + n / 1_000 % 10) ∷ (48 + n / 100 % 10) ∷ (48 + n / 10 % 10) ∷ (48 + n % 10) ∷ []

-- `Display`
abbrev pub code_text : Code → Str
code_text code = bytes "PLS-" ++ (code.area ++ (bytes "-" ++ four_digits code.number))

abbrev pub waf_rule : Code
waf_rule = record {
  area = bytes "WAF";
  number = 1;
  title = bytes "Blocked by WAF rule";
  category = security;
  status = some 403;
}

abbrev pub waf_ip_denied : Code
waf_ip_denied = record {
  area = bytes "WAF";
  number = 4;
  title = bytes "IP denied";
  category = security;
  status = some 403;
}

abbrev pub cfg_syntax : Code
cfg_syntax = record {
  area = bytes "CFG";
  number = 1;
  title = bytes "Syntax error";
  category = config;
  status = none;
}

abbrev pub cfg_type_mismatch : Code
cfg_type_mismatch = record {
  area = bytes "CFG";
  number = 3;
  title = bytes "Type/unit mismatch";
  category = config;
  status = none;
}

abbrev pub prx_connect_timeout : Code
prx_connect_timeout = record {
  area = bytes "PRX";
  number = 2;
  title = bytes "Upstream connect timeout";
  category = upstream;
  status = some 504;
}

abbrev pub prx_no_healthy : Code
prx_no_healthy = record {
  area = bytes "PRX";
  number = 3;
  title = bytes "No healthy upstream target";
  category = upstream;
  status = some 503;
}

abbrev pub prx_retry_exhausted : Code
prx_retry_exhausted = record {
  area = bytes "PRX";
  number = 6;
  title = bytes "Retry budget exhausted";
  category = upstream;
  status = some 502;
}

abbrev pub prx_protocol_error : Code
prx_protocol_error = record {
  area = bytes "PRX";
  number = 7;
  title = bytes "Upstream protocol error";
  category = upstream;
  status = some 502;
}

abbrev pub cfg_missing_field : Code
cfg_missing_field = record {
  area = bytes "CFG";
  number = 5;
  title = bytes "Missing required field";
  category = config;
  status = none;
}

abbrev pub cfg_unknown_ref : Code
cfg_unknown_ref = record {
  area = bytes "CFG";
  number = 7;
  title = bytes "Unknown reference";
  category = config;
  status = none;
}

abbrev pub cfg_host_collision : Code
cfg_host_collision = record {
  area = bytes "CFG";
  number = 10;
  title = bytes "Host+port collision";
  category = config;
  status = none;
}

abbrev pub cfg_multi_handler : Code
cfg_multi_handler = record {
  area = bytes "CFG";
  number = 12;
  title = bytes "Multiple handlers in one route";
  category = config;
  status = none;
}

abbrev pub cfg_duplicate : Code
cfg_duplicate = record {
  area = bytes "CFG";
  number = 20;
  title = bytes "Duplicate definition";
  category = config;
  status = none;
}

abbrev pub cfg_invalid_cors : Code
cfg_invalid_cors = record {
  area = bytes "CFG";
  number = 21;
  title = bytes "Invalid CORS configuration";
  category = config;
  status = none;
}
