-- ===== src/Constant/Role.antt =====
-- The constants of app/database/constant/role and app/database/constant/user.
use service_platform.Prelude.{String}

abbrev pub role_user : String
role_user = "USER"

abbrev pub role_admin : String
role_admin = "ADMIN"

abbrev pub role_operator : String
role_operator = "OPERATOR"

abbrev pub role_super_admin : String
role_super_admin = "SUPER_ADMIN"

abbrev pub verified : String
verified = "VERIFIED"

abbrev pub disabled : String
disabled = "DISABLED"

abbrev pub unverified : String
unverified = "UNVERIFIED"
