-- ===== src/Apperr/Sentinel.antt =====
-- The package-level sentinels of internal/apperr/apperr.go that requests derive their errors from.
use chuchu.Apperr.{Error, new}

abbrev pub validation_failed : Error
validation_failed = new "VALIDATION_FAILED" "驗證失敗"

abbrev pub not_found : Error
not_found = new "PROPERTY_NOT_FOUND" "找不到指定的物件"

abbrev pub duplicate : Error
duplicate = new "PROPERTY_DUPLICATE" "相同門牌的物件已存在"

abbrev pub invalid_status_transition : Error
invalid_status_transition = new "PROPERTY_INVALID_STATUS_TRANSITION" "不允許的狀態轉換"

abbrev pub line_signature_invalid : Error
line_signature_invalid = new "LINE_SIGNATURE_INVALID" "LINE 簽章驗證失敗"

abbrev pub internal : Error
internal = new "INTERNAL" "internal server error"
