-- ===== src/Mqtt.antt =====
-- The MQTT client, src/network/MqttClient.cpp and include/lwipserver/network/MqttClient.h.
pub mod Topic
pub mod Client
pub mod Receive
pub mod Message
pub mod Health
pub mod Inbox
mod Tests
