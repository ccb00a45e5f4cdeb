-- ===== src/Dispatcher/Names.antt =====
-- The names of attributes that pkg/dc2/dispatcher.go, dispatcher_instance.go and
-- dispatcher_volume.go give to instances and volumes.
use dc.Prelude.{String}

abbrev pub key_name : String
key_name = "KeyName"

abbrev pub availability_zone : String
availability_zone = "AvailabilityZone"

abbrev pub subnet_id : String
subnet_id = "SubnetID"

abbrev pub vpc_id : String
vpc_id = "VPCID"

abbrev pub create_time : String
create_time = "CreateTime"

abbrev pub user_data : String
user_data = "UserData"

abbrev pub transition_reason : String
transition_reason = "StateTransitionReason"

abbrev pub reason_code : String
reason_code = "StateReasonCode"

abbrev pub reason_message : String
reason_message = "StateReasonMessage"

abbrev pub terminated_at : String
terminated_at = "TerminatedAt"

abbrev pub market_type : String
market_type = "InstanceMarketType"

abbrev pub interrupt_mode : String
interrupt_mode = "SpotInterruptionBehavior"

abbrev pub max_price : String
max_price = "SpotMaxPrice"

abbrev pub volume_kind : String
volume_kind = "VolumeType"

abbrev pub encrypted : String
encrypted = "Encrypted"

abbrev pub kms_key_id : String
kms_key_id = "KMSKeyID"

abbrev pub iops : String
iops = "IOPS"

abbrev pub throughput : String
throughput = "Throughput"

abbrev pub snapshot_id : String
snapshot_id = "SnapshotID"

abbrev pub delete_on_termination : String
delete_on_termination = "DeleteOnTermination"

abbrev pub owner_instance_id : String
owner_instance_id = "DeleteOnTerminationInstanceID"
