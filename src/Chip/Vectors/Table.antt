-- ===== src/Chip/Vectors/Table.antt =====
-- The vector table of src/stm32h7/Vectors.cpp.
use Prim.Native.String.{String}
use lwip_server.Base.{List, [], ◌∷◌}

-- A null pointer marks a place without an interrupt.
pub data Entry : Type 0 where
  stack_top : Entry
  reserved : Entry
  symbol : String → Entry

-- The first sixteen places: the stack pointer, the entry point and the exceptions.
abbrev pub exceptions : List Entry
exceptions =
    stack_top
    ∷ symbol "Reset_Handler"
    ∷ symbol "NMI_Handler"
    ∷ symbol "HardFault_Handler"
    ∷ symbol "MemManage_Handler"
    ∷ symbol "BusFault_Handler"
    ∷ symbol "UsageFault_Handler"
    ∷ reserved
    ∷ reserved
    ∷ reserved
    ∷ reserved
    ∷ symbol "SVC_Handler"
    ∷ symbol "DebugMon_Handler"
    ∷ reserved
    ∷ symbol "PendSV_Handler"
    ∷ symbol "SysTick_Handler"
    ∷ []

-- The interrupts 0 to 74.
abbrev pub lower_interrupts : List Entry
lower_interrupts =
    symbol "WWDG_IRQHandler"
    ∷ symbol "PVD_AVD_IRQHandler"
    ∷ symbol "TAMP_STAMP_IRQHandler"
    ∷ symbol "RTC_WKUP_IRQHandler"
    ∷ symbol "FLASH_IRQHandler"
    ∷ symbol "RCC_IRQHandler"
    ∷ symbol "EXTI0_IRQHandler"
    ∷ symbol "EXTI1_IRQHandler"
    ∷ symbol "EXTI2_IRQHandler"
    ∷ symbol "EXTI3_IRQHandler"
    ∷ symbol "EXTI4_IRQHandler"
    ∷ symbol "DMA1_Stream0_IRQHandler"
    ∷ symbol "DMA1_Stream1_IRQHandler"
    ∷ symbol "DMA1_Stream2_IRQHandler"
    ∷ symbol "DMA1_Stream3_IRQHandler"
    ∷ symbol "DMA1_Stream4_IRQHandler"
    ∷ symbol "DMA1_Stream5_IRQHandler"
    ∷ symbol "DMA1_Stream6_IRQHandler"
    ∷ symbol "ADC_IRQHandler"
    ∷ symbol "FDCAN1_IT0_IRQHandler"
    ∷ symbol "FDCAN2_IT0_IRQHandler"
    ∷ symbol "FDCAN1_IT1_IRQHandler"
    ∷ symbol "FDCAN2_IT1_IRQHandler"
    ∷ symbol "EXTI9_5_IRQHandler"
    ∷ symbol "TIM1_BRK_IRQHandler"
    ∷ symbol "TIM1_UP_IRQHandler"
    ∷ symbol "TIM1_TRG_COM_IRQHandler"
    ∷ symbol "TIM1_CC_IRQHandler"
    ∷ symbol "TIM2_IRQHandler"
    ∷ symbol "TIM3_IRQHandler"
    ∷ symbol "TIM4_IRQHandler"
    ∷ symbol "I2C1_EV_IRQHandler"
    ∷ symbol "I2C1_ER_IRQHandler"
    ∷ symbol "I2C2_EV_IRQHandler"
    ∷ symbol "I2C2_ER_IRQHandler"
    ∷ symbol "SPI1_IRQHandler"
    ∷ symbol "SPI2_IRQHandler"
    ∷ symbol "USART1_IRQHandler"
    ∷ symbol "USART2_IRQHandler"
    ∷ symbol "USART3_IRQHandler"
    ∷ symbol "EXTI15_10_IRQHandler"
    ∷ symbol "RTC_Alarm_IRQHandler"
    ∷ reserved
    ∷ symbol "TIM8_BRK_TIM12_IRQHandler"
    ∷ symbol "TIM8_UP_TIM13_IRQHandler"
    ∷ symbol "TIM8_TRG_COM_TIM14_IRQHandler"
    ∷ symbol "TIM8_CC_IRQHandler"
    ∷ symbol "DMA1_Stream7_IRQHandler"
    ∷ symbol "FMC_IRQHandler"
    ∷ symbol "SDMMC1_IRQHandler"
    ∷ symbol "TIM5_IRQHandler"
    ∷ symbol "SPI3_IRQHandler"
    ∷ symbol "UART4_IRQHandler"
    ∷ symbol "UART5_IRQHandler"
    ∷ symbol "TIM6_DAC_IRQHandler"
    ∷ symbol "TIM7_IRQHandler"
    ∷ symbol "DMA2_Stream0_IRQHandler"
    ∷ symbol "DMA2_Stream1_IRQHandler"
    ∷ symbol "DMA2_Stream2_IRQHandler"
    ∷ symbol "DMA2_Stream3_IRQHandler"
    ∷ symbol "DMA2_Stream4_IRQHandler"
    ∷ symbol "ETH_IRQHandler"
    ∷ symbol "ETH_WKUP_IRQHandler"
    ∷ symbol "FDCAN_CAL_IRQHandler"
    ∷ reserved
    ∷ reserved
    ∷ reserved
    ∷ reserved
    ∷ symbol "DMA2_Stream5_IRQHandler"
    ∷ symbol "DMA2_Stream6_IRQHandler"
    ∷ symbol "DMA2_Stream7_IRQHandler"
    ∷ symbol "USART6_IRQHandler"
    ∷ symbol "I2C3_EV_IRQHandler"
    ∷ symbol "I2C3_ER_IRQHandler"
    ∷ symbol "OTG_HS_EP1_OUT_IRQHandler"
    ∷ []

-- The interrupts 75 to 149.
abbrev pub upper_interrupts : List Entry
upper_interrupts =
    symbol "OTG_HS_EP1_IN_IRQHandler"
    ∷ symbol "OTG_HS_WKUP_IRQHandler"
    ∷ symbol "OTG_HS_IRQHandler"
    ∷ symbol "DCMI_IRQHandler"
    ∷ reserved
    ∷ symbol "RNG_IRQHandler"
    ∷ symbol "FPU_IRQHandler"
    ∷ symbol "UART7_IRQHandler"
    ∷ symbol "UART8_IRQHandler"
    ∷ symbol "SPI4_IRQHandler"
    ∷ symbol "SPI5_IRQHandler"
    ∷ symbol "SPI6_IRQHandler"
    ∷ symbol "SAI1_IRQHandler"
    ∷ symbol "LTDC_IRQHandler"
    ∷ symbol "LTDC_ER_IRQHandler"
    ∷ symbol "DMA2D_IRQHandler"
    ∷ symbol "SAI2_IRQHandler"
    ∷ symbol "QUADSPI_IRQHandler"
    ∷ symbol "LPTIM1_IRQHandler"
    ∷ symbol "CEC_IRQHandler"
    ∷ symbol "I2C4_EV_IRQHandler"
    ∷ symbol "I2C4_ER_IRQHandler"
    ∷ symbol "SPDIF_RX_IRQHandler"
    ∷ symbol "OTG_FS_EP1_OUT_IRQHandler"
    ∷ symbol "OTG_FS_EP1_IN_IRQHandler"
    ∷ symbol "OTG_FS_WKUP_IRQHandler"
    ∷ symbol "OTG_FS_IRQHandler"
    ∷ symbol "DMAMUX1_OVR_IRQHandler"
    ∷ symbol "HRTIM1_Master_IRQHandler"
    ∷ symbol "HRTIM1_TIMA_IRQHandler"
    ∷ symbol "HRTIM1_TIMB_IRQHandler"
    ∷ symbol "HRTIM1_TIMC_IRQHandler"
    ∷ symbol "HRTIM1_TIMD_IRQHandler"
    ∷ symbol "HRTIM1_TIME_IRQHandler"
    ∷ symbol "HRTIM1_FLT_IRQHandler"
    ∷ symbol "DFSDM1_FLT0_IRQHandler"
    ∷ symbol "DFSDM1_FLT1_IRQHandler"
    ∷ symbol "DFSDM1_FLT2_IRQHandler"
    ∷ symbol "DFSDM1_FLT3_IRQHandler"
    ∷ symbol "SAI3_IRQHandler"
    ∷ symbol "SWPMI1_IRQHandler"
    ∷ symbol "TIM15_IRQHandler"
    ∷ symbol "TIM16_IRQHandler"
    ∷ symbol "TIM17_IRQHandler"
    ∷ symbol "MDIOS_WKUP_IRQHandler"
    ∷ symbol "MDIOS_IRQHandler"
    ∷ symbol "JPEG_IRQHandler"
    ∷ symbol "MDMA_IRQHandler"
    ∷ reserved
    ∷ symbol "SDMMC2_IRQHandler"
    ∷ symbol "HSEM1_IRQHandler"
    ∷ reserved
    ∷ symbol "ADC3_IRQHandler"
    ∷ symbol "DMAMUX2_OVR_IRQHandler"
    ∷ symbol "BDMA_Channel0_IRQHandler"
    ∷ symbol "BDMA_Channel1_IRQHandler"
    ∷ symbol "BDMA_Channel2_IRQHandler"
    ∷ symbol "BDMA_Channel3_IRQHandler"
    ∷ symbol "BDMA_Channel4_IRQHandler"
    ∷ symbol "BDMA_Channel5_IRQHandler"
    ∷ symbol "BDMA_Channel6_IRQHandler"
    ∷ symbol "BDMA_Channel7_IRQHandler"
    ∷ symbol "COMP1_IRQHandler"
    ∷ symbol "LPTIM2_IRQHandler"
    ∷ symbol "LPTIM3_IRQHandler"
    ∷ symbol "LPTIM4_IRQHandler"
    ∷ symbol "LPTIM5_IRQHandler"
    ∷ symbol "LPUART1_IRQHandler"
    ∷ reserved
    ∷ symbol "CRS_IRQHandler"
    ∷ symbol "ECC_IRQHandler"
    ∷ symbol "SAI4_IRQHandler"
    ∷ reserved
    ∷ reserved
    ∷ symbol "WAKEUP_PIN_IRQHandler"
    ∷ []
