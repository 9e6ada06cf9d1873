-- ===== src/Exports/Downloads.antt =====
-- `download_url` and `expire_succeeded_exports` of backend/app/modules/exports/service.py.
use travel_latest.Base.{
  ℕ, ◌+◌, Bool, true, false, not, ◌&&◌, ◌||◌, Option, none, some, List, [], ◌∷◌, ◌==◌, leb,
  if◌then◌else◌, str_eq,
}
use travel_latest.Base.Exec.{◌>>=◌, ◌>>◌, pure, modify, gets, raise_if, or_raise}
use travel_latest.Exports.Model.{
  ExportTask, ExportStatus, MediaAsset, MediaStatus, M, export_task_not_found, export_expired,
  export_not_ready, export_storage_unavailable, asset_by_id, is_succeeded_task, is_expired_task,
}
use travel_latest.Exports.Service.{ObjectStorage, get_export}
use travel_latest.Exports.Attempts.{docx_mime_type}

-- `_has_expired`
abbrev has_expired : ℕ → Option ℕ → Bool
has_expired now none = false
has_expired now (some t) = leb t now

abbrev is_completed_media : MediaStatus → Bool
is_completed_media MediaStatus.completed = true
is_completed_media _ = false

unfoldable is_foreign_asset : ℕ → MediaAsset → Bool
is_foreign_asset requester_id a =
    not (a.owner_id == requester_id)
    || not (is_completed_media a.status)
    || not (str_eq a.mime_type docx_mime_type)

-- `DOWNLOAD_URL_TTL_SECONDS`, in microseconds
abbrev download_url_ttl : ℕ
download_url_ttl = 300000000

unfoldable download_url : ℕ → ObjectStorage → ℕ → ℕ → M (ℕ × ℕ)
download_url now storage task_id requester_id = do
  found ← gets (get_export task_id requester_id)
  t ← or_raise found export_task_not_found
  raise_if (is_expired_task t.status || has_expired now t.expires_at) export_expired
  raise_if (not (is_succeeded_task t.status)) export_not_ready
  asset_id ← or_raise t.output_asset_id export_not_ready
  found_asset ← gets (λ d. asset_by_id asset_id d.assets)
  a ← or_raise found_asset export_not_ready
  raise_if (is_foreign_asset requester_id a) export_not_ready
  url ← or_raise (storage.presign_attachment_get a.object_key) export_storage_unavailable
  pure (url, now + download_url_ttl)

unfoldable pub expires_now : ℕ → ExportTask → Bool
expires_now now t = is_succeeded_task t.status && has_expired now t.expires_at

-- The rows of `expire_succeeded_exports`, and how many they are. The deletion of the objects, of
-- which the failures are ignored, changes no row.
unfoldable pub expire_rows : ℕ → List ExportTask → List ExportTask
expire_rows now [] = []
expire_rows now (t ∷ ts) =
    (if expires_now now t then record t { status = ExportStatus.expired } else t)
    ∷ expire_rows now ts

unfoldable pub count_expiring : ℕ → List ExportTask → ℕ
count_expiring now [] = 0
count_expiring now (t ∷ ts) = (if expires_now now t then 1 else 0) + count_expiring now ts

unfoldable pub expire_succeeded_exports : ℕ → M ℕ
expire_succeeded_exports now = do
  count ← gets (λ d. count_expiring now d.tasks)
  modify (λ d. record d { tasks = expire_rows now d.tasks })
  pure count
