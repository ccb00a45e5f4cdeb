-- ===== src/Spot/Names.antt =====
-- The names of the attributes of a spot request in pkg/dc2/dispatcher_spot.go.
use dc.Prelude.{String}

abbrev pub state : String
state = "SpotRequestState"

abbrev pub status_code : String
status_code = "SpotRequestStatusCode"

abbrev pub status_message : String
status_message = "SpotRequestStatusMessage"

abbrev pub status_updated_at : String
status_updated_at = "SpotRequestStatusUpdatedAt"

abbrev pub create_time : String
create_time = "SpotRequestCreateTime"

abbrev pub instance_id : String
instance_id = "SpotRequestInstanceID"

abbrev pub instance_kind : String
instance_kind = "SpotRequestInstanceType"

abbrev pub request_type : String
request_type = "SpotRequestType"

abbrev pub max_price : String
max_price = "SpotRequestMaxPrice"

abbrev pub interrupt_mode : String
interrupt_mode = "SpotRequestInterruptionBehavior"

-- on the instance
abbrev pub request_id : String
request_id = "SpotInstanceRequestID"
