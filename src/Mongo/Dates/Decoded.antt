-- ===== src/Mongo/Dates/Decoded.antt =====
-- What `DateTime` of mongo/datetime.go has read is written and read back as it is.
use core_shared.Returns.{Result, ok, err}
use core_shared.Calendar.{Time}
use core_shared.Calendar.Days.{IsTime}
use core_shared.Calendar.Layout.{Layout}
use core_shared.Mongo.Bson.{Bson}
use core_shared.Mongo.Dates.DateTimes

abbrev pub ReadsTime : Result Time → Type 0
ReadsTime (ok t) = IsTime t
ReadsTime (err e) = Unit {0}
