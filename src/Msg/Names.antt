-- ===== src/Msg/Names.antt =====
-- `msg_type_to_str` of src/msg.c, with the names of the table MSGTYPES of src/msg.h.
use mini_dropbox.Prelude.{ℕ, codes, Option, none, some, List}
use mini_dropbox.Msg.{
  MessageType, msgtype_none, msgtype_error, msgtype_auth_req, msgtype_auth_ok, msgtype_auth_fail,
  msgtype_upload_req, msgtype_upload_res, msgtype_upload_fin, msgtype_download_req,
  msgtype_download_res, msgtype_download_fin, msgtype_list_req, msgtype_list_res,
  msgtype_remove_req, msgtype_remove_res, msgtype_mkdir_req, msgtype_mkdir_res, msgtype_fileinfo,
  msgtype_send_chunk, msgtype_chunk_ok, msgtype_chunk_again, other,
}

-- A number that no enumerator has fails the assertion of the default branch: `none`.
unfoldable pub msg_type_to_str : MessageType → Option (List ℕ)
msg_type_to_str msgtype_none = some (codes "MSGTYPE_NONE")
msg_type_to_str msgtype_error = some (codes "MSGTYPE_ERROR")
msg_type_to_str msgtype_auth_req = some (codes "MSGTYPE_AUTH_REQ")
msg_type_to_str msgtype_auth_ok = some (codes "MSGTYPE_AUTH_OK")
msg_type_to_str msgtype_auth_fail = some (codes "MSGTYPE_AUTH_FAIL")
msg_type_to_str msgtype_upload_req = some (codes "MSGTYPE_UPLOAD_REQ")
msg_type_to_str msgtype_upload_res = some (codes "MSGTYPE_UPLOAD_RES")
msg_type_to_str msgtype_upload_fin = some (codes "MSGTYPE_UPLOAD_FIN")
msg_type_to_str msgtype_download_req = some (codes "MSGTYPE_DOWNLOAD_REQ")
msg_type_to_str msgtype_download_res = some (codes "MSGTYPE_DOWNLOAD_RES")
msg_type_to_str msgtype_download_fin = some (codes "MSGTYPE_DOWNLOAD_FIN")
msg_type_to_str msgtype_list_req = some (codes "MSGTYPE_LIST_REQ")
msg_type_to_str msgtype_list_res = some (codes "MSGTYPE_LIST_RES")
msg_type_to_str msgtype_remove_req = some (codes "MSGTYPE_REMOVE_REQ")
msg_type_to_str msgtype_remove_res = some (codes "MSGTYPE_REMOVE_RES")
msg_type_to_str msgtype_mkdir_req = some (codes "MSGTYPE_MKDIR_REQ")
msg_type_to_str msgtype_mkdir_res = some (codes "MSGTYPE_MKDIR_RES")
msg_type_to_str msgtype_fileinfo = some (codes "MSGTYPE_FILEINFO")
msg_type_to_str msgtype_send_chunk = some (codes "MSGTYPE_SEND_CHUNK")
msg_type_to_str msgtype_chunk_ok = some (codes "MSGTYPE_CHUNK_OK")
msg_type_to_str msgtype_chunk_again = some (codes "MSGTYPE_CHUNK_AGAIN")
msg_type_to_str (other n) = none
