-- ===== src/Fastcgi/Types.antt =====
-- fastcgi.rs: the enumerations that stand for one byte of a record.
use async_fcgi.Base.{ℕ, ◌≡◌, arith, ◌==◌, if◌then◌else◌}
use async_fcgi.Base.Result.{Res, ok, panic}

-- `data_stream` is `RecordType::Data`.
pub data RecordType : Type 0 where
  begin_request abort_request end_request params std_in std_out std_err data_stream : RecordType
  get_values get_values_result unknown_type : RecordType

-- `rtype as u8`
unfoldable pub rtype_as_u8 : RecordType → ℕ
rtype_as_u8 begin_request = 1
rtype_as_u8 abort_request = 2
rtype_as_u8 end_request = 3
rtype_as_u8 params = 4
rtype_as_u8 std_in = 5
rtype_as_u8 std_out = 6
rtype_as_u8 std_err = 7
rtype_as_u8 data_stream = 8
rtype_as_u8 get_values = 9
rtype_as_u8 get_values_result = 10
rtype_as_u8 unknown_type = 11

-- `Result<Self, u8>`: an unknown byte is handed back.
pub data TryFrom (A : Type 0) : Type 0 where
  valid : A → TryFrom A
  unknown : ℕ → TryFrom A

-- `.expect(…)`
abbrev pub expect : {A : Type 0} → TryFrom A → Res A
expect (valid a) = ok a
expect (unknown o) = panic

pub rtype_try_from : ℕ → TryFrom RecordType
rtype_try_from value =
    if value == 1
    then valid begin_request
    else if value == 2
    then valid abort_request
    else if value == 3
    then valid end_request
    else if value == 4
    then valid params
    else if value == 5
    then valid std_in
    else if value == 6
    then valid std_out
    else if value == 7
    then valid std_err
    else if value == 8
    then valid data_stream
    else if value == 9
    then valid get_values
    else if value == 10
    then valid get_values_result
    else if value == 11
    then valid unknown_type
    else unknown value

pub data FastCgiRole : Type 0 where
  responder authorizer filter : FastCgiRole

-- `role as u16`
unfoldable pub role_as_u16 : FastCgiRole → ℕ
role_as_u16 responder = 1
role_as_u16 authorizer = 2
role_as_u16 filter = 3

pub data ProtoStatus : Type 0 where
  complete cant_mpx_con overloaded unknown_role : ProtoStatus

-- `status as u8`
pub status_as_u8 : ProtoStatus → ℕ
status_as_u8 complete = 0
status_as_u8 cant_mpx_con = 1
status_as_u8 overloaded = 2
status_as_u8 unknown_role = 3

unfoldable pub status_try_from : ℕ → TryFrom ProtoStatus
status_try_from value =
    if value == 0
    then valid complete
    else if value == 1
    then valid cant_mpx_con
    else if value == 2
    then valid overloaded
    else if value == 3
    then valid unknown_role
    else unknown value

pub rtype_try_from-as_u8 : (t : RecordType) → rtype_try_from (rtype_as_u8 t) ≡ valid t
unfolding rtype_try_from rtype_as_u8
rtype_try_from-as_u8 t = ground arith

pub status_try_from-as_u8 : (s : ProtoStatus) → status_try_from (status_as_u8 s) ≡ valid s
unfolding status_try_from status_as_u8
status_try_from-as_u8 s = ground arith
