-- ===== src/Connection/Http.antt =====
-- src/connection/Http.cpp: an HTTP client on one handle of libcurl.
use repo_init.Base.{
  ℕ, ◌+◌, ◌-◌, ◌*◌, ◌%◌, Bool, Option, none, some, List, [], ◌∷◌, ◌++◌, ◌==◌, if◌then◌else◌, length,
  take, Bytes, size_mod,
}
use repo_init.Base.Int.{ℤ, pos, negsuc}
use repo_init.Connection.Curl.{
  Setting, url, post_fields, post_field_size, http_get, no_body, post, upload, write_data,
  write_function, verbose, follow_location, timeout_ms, connect_timeout_ms, ssl_engine_default,
  ssl_version, Info, response_code, size_upload, size_download, header_size, request_size,
  speed_upload, speed_download, connect_time, name_lookup_time, pre_transfer_time, redirect_time,
  start_transfer_time, total_time, Chunk, Curl,
}
use repo_init.Utils.ConfigParser.{c_str}
pub mod Requests
pub mod Laws

-- The result of a request: the code, 0 for CURLE_OK, the status and the data.
pub record Reply : Type 0 where
  pub code : ℕ
  pub status_code : ℤ
  pub received_data : Bytes

pub record HttpStats : Type 0 where
  pub upload_bytes : ℕ
  pub download_bytes : ℕ
  pub header_bytes : ℕ
  pub request_bytes : ℕ
  pub upload_speed : ℤ
  pub download_speed : ℤ
  pub connection_time : ℤ
  pub name_lookup_time_us : ℤ
  pub pre_transfer_time_us : ℤ
  pub redirect_time_us : ℤ
  pub start_transfer_time_us : ℤ
  pub total_time_us : ℤ

-- A conversion to size_t.
abbrev pub to_size : ℤ → ℕ
to_size (pos n) = n % size_mod
to_size (negsuc n) = (size_mod - 1 - n % size_mod) % size_mod

-- writeDataCallback on a pointer that may be null: the string after it, and the result.
unfoldable pub write_data_callback : Chunk → Option Bytes → Option Bytes × ℕ
write_data_callback c none = (none, 0)
write_data_callback c (some buffer) =
    let recv_size = c.size * c.nmemb % size_mod in
    (some (buffer ++ take recv_size c.contents), recv_size)

-- The calls of a transfer, as long as each takes all of its bytes.
abbrev pub write_chunks : List Chunk → Bytes → Bytes
write_chunks [] buffer = buffer
write_chunks (c ∷ cs) buffer = elim (write_data_callback c (some buffer)).0 [
  | none ↦ buffer
  | some buffer' ↦ write_chunks cs buffer'
]

abbrev value_or : ℤ → Option ℤ → ℤ
value_or x none = x
value_or x (some y) = y

-- HTTP; `buffer` is the data of its curlMemory.
pub record Http (c : Curl) : Type 0 where
  pub curl : c.Handle
  pub buffer : Bytes
  pub host_addr : Bytes

module _ (c : Curl) where
  open c use {Handle, init, setopt, perform, getinfo}

  abbrev pub set_all : List Setting → Handle → Handle
  set_all [] h = h
  set_all (s ∷ ss) h = set_all ss (setopt s h).0

  -- The constructor; `none` is the exception.
  unfoldable pub http : Bytes → ℤ → Option (Http c)
  http addr timeout_in_ms = elim init [
    | none ↦ none
    | some h ↦ some (record {
      curl =
          set_all
            (verbose (pos 0)
              ∷ follow_location (pos 1)
              ∷ timeout_ms timeout_in_ms
              ∷ connect_timeout_ms timeout_in_ms
              ∷ write_function
              ∷ ssl_engine_default (pos 1)
              ∷ ssl_version (pos 6)
              ∷ [])
            h;
      buffer = [];
      host_addr = addr;
    })
  ]

  unfoldable pub set_option : Setting → Http c → Http c × Bool
  set_option s t = let (h, ok) = setopt s t.curl in (record t { curl = h }, ok)

  -- setCommonFields, without and with a payload.
  unfoldable pub set_common_fields : Bytes → Setting → Http c → Http c
  set_common_fields full_url method t = record t {
    curl = set_all (url (c_str full_url) ∷ write_data ∷ method ∷ []) t.curl;
    buffer = [];
  }

  unfoldable pub set_payload_fields : Bytes → Setting → Bytes → Http c → Http c
  set_payload_fields full_url method payload t = record t {
    curl =
        set_all
          (post_fields payload
            ∷ post_field_size (length payload)
            ∷ url (c_str full_url)
            ∷ write_data
            ∷ method
            ∷ [])
          t.curl;
    buffer = [];
  }

  -- `xxx_max` is a status of a library.
  unfoldable pub perform_request : ℤ → Http c → Http c × Reply
  unfolding write_data_callback
  perform_request xxx_max t =
      let (h, transfer) = perform t.curl in
      let buffer = write_chunks transfer.chunks t.buffer in
      let status =
        if transfer.code == 0 then value_or xxx_max (getinfo response_code h) else xxx_max in
      (
        record t { curl = h; buffer = buffer },
        record { code = transfer.code; status_code = status; received_data = buffer },
      )

  unfoldable pub send_get_request : ℤ → Bytes → Http c → Http c × Reply
  unfolding set_common_fields perform_request
  send_get_request xxx_max index t =
      perform_request xxx_max (set_common_fields (t.host_addr ++ index) http_get t)

  unfoldable pub send_head_request : ℤ → Bytes → Http c → Http c × Reply
  unfolding set_common_fields perform_request
  send_head_request xxx_max index t =
      perform_request xxx_max (set_common_fields (t.host_addr ++ index) no_body t)

  unfoldable pub send_post_request : ℤ → Bytes → Bytes → Http c → Http c × Reply
  unfolding set_payload_fields perform_request
  send_post_request xxx_max index payload t =
      perform_request xxx_max (set_payload_fields (t.host_addr ++ index) post payload t)

  unfoldable pub send_put_request : ℤ → Bytes → Bytes → Http c → Http c × Reply
  unfolding set_payload_fields perform_request
  send_put_request xxx_max index payload t =
      perform_request xxx_max (set_payload_fields (t.host_addr ++ index) upload payload t)

  abbrev ask : Http c → ℤ → Info → ℤ
  ask t value i = value_or value (getinfo i t.curl)

  -- One `value` for all: where a call fails it keeps what the one before it has given.
  unfoldable pub get_stats : Http c → HttpStats
  get_stats t =
      let uploaded = ask t (pos 0) size_upload in
      let downloaded = ask t uploaded size_download in
      let headers = ask t downloaded header_size in
      let requests = ask t headers request_size in
      let up_speed = ask t requests speed_upload in
      let down_speed = ask t up_speed speed_download in
      let connecting = ask t down_speed connect_time in
      let looking_up = ask t connecting name_lookup_time in
      let preparing = ask t looking_up pre_transfer_time in
      let redirecting = ask t preparing redirect_time in
      let starting = ask t redirecting start_transfer_time in
      let total = ask t starting total_time in
      record {
        upload_bytes = to_size uploaded;
        download_bytes = to_size downloaded;
        header_bytes = to_size headers;
        request_bytes = to_size requests;
        upload_speed = up_speed;
        download_speed = down_speed;
        connection_time = connecting;
        name_lookup_time_us = looking_up;
        pre_transfer_time_us = preparing;
        redirect_time_us = redirecting;
        start_transfer_time_us = starting;
        total_time_us = total;
      }
