-- ===== src/AutoScaling/Names.antt =====
-- The names of the attributes that pkg/dc2/dispatcher_autoscaling.go gives to groups and to their
-- instances.
use dc.Prelude.{String}

abbrev pub name : String
name = "AutoScalingGroupName"

abbrev pub min_size : String
min_size = "AutoScalingGroupMinSize"

abbrev pub max_size : String
max_size = "AutoScalingGroupMaxSize"

abbrev pub desired_capacity : String
desired_capacity = "AutoScalingGroupDesiredCapacity"

abbrev pub created_time : String
created_time = "AutoScalingGroupCreatedTime"

abbrev pub launch_template_id : String
launch_template_id = "AutoScalingGroupLaunchTemplateID"

abbrev pub launch_template_name : String
launch_template_name = "AutoScalingGroupLaunchTemplateName"

abbrev pub launch_template_version : String
launch_template_version = "AutoScalingGroupLaunchTemplateVersion"

abbrev pub image_id : String
image_id = "AutoScalingGroupLaunchTemplateImageID"

abbrev pub template_instance_kind : String
template_instance_kind = "AutoScalingGroupLaunchTemplateInstanceType"

abbrev pub user_data : String
user_data = "AutoScalingGroupLaunchTemplateUserData"

abbrev pub block_device_mappings : String
block_device_mappings = "AutoScalingGroupLaunchTemplateBlockDeviceMappings"

abbrev pub mixed_instances_policy : String
mixed_instances_policy = "AutoScalingGroupMixedInstancesPolicy"

abbrev pub availability_zones : String
availability_zones = "AutoScalingGroupAvailabilityZones"

abbrev pub vpc_zone_identifier : String
vpc_zone_identifier = "AutoScalingGroupVPCZoneIdentifier"

abbrev pub default_cooldown : String
default_cooldown = "AutoScalingGroupDefaultCooldown"

abbrev pub health_check_kind : String
health_check_kind = "AutoScalingGroupHealthCheckType"

abbrev pub instance_kind : String
instance_kind = "AutoScalingGroupInstanceType"

abbrev pub warm_pool_enabled : String
warm_pool_enabled = "AutoScalingGroupWarmPoolEnabled"

abbrev pub warm_pool_min_size : String
warm_pool_min_size = "AutoScalingGroupWarmPoolMinSize"

abbrev pub warm_pool_max_group_prepared_capacity : String
warm_pool_max_group_prepared_capacity = "AutoScalingGroupWarmPoolMaxGroupPreparedCapacity"

abbrev pub warm_pool_state : String
warm_pool_state = "AutoScalingGroupWarmPoolState"

abbrev pub warm_pool_status : String
warm_pool_status = "AutoScalingGroupWarmPoolStatus"

abbrev pub warm_pool_reuse_on_scale_in : String
warm_pool_reuse_on_scale_in = "AutoScalingGroupWarmPoolReuseOnScaleIn"

abbrev pub warm_pool : String
warm_pool = "AutoScalingInstanceWarmPool"

abbrev pub synchronous_provisioning : String
synchronous_provisioning = "AutoScalingInstanceSynchronousProvisioning"

abbrev pub propagate_prefix : String
propagate_prefix = "AutoScalingTagPropagateAtLaunch:"
